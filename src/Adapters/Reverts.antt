-- ===== src/Adapters/Reverts.antt =====
-- core/src/vc_adapter.cpp: dispatch ends as the user that it started as.
use vericonnect_agent.Fs.{Files}
use vericonnect_agent.Json.{Numbers}
use vericonnect_agent.Json.Parse.{parse}
use vericonnect_agent.Log.{Level}
use vericonnect_agent.Adapters.{
  Plugins, Adapter, Begun, begun, refused, ImpersonationError, c_str, credentials, route, run,
  run_begun, run_as, run_routed, dispatch,
}
use vericonnect_agent.Prelude.{
  ℕ, suc, ◌-◌, ◌≡◌, refl, ap, ◌∙◌, inl, inr, Option, none, some, List, arith, Bytes, Bool-cases,
  is_nil,
}

-- `depth` counts the impersonations that are in force on the thread: begin and the destructor change
-- it, a command of an adapter and the log leave it as it was.
pub record Impersonates {fs : Files} (plugins : Plugins fs) (depth : fs.World → ℕ) : Type 0 where
  pub begins :
      (user domain pass : Bytes) (w : fs.World) (t : plugins.Token)
      → (plugins.begin user domain pass w).0 ≡ begun t
      → depth (plugins.begin user domain pass w).1 ≡ suc (depth w)
  pub refuses :
      (user domain pass : Bytes) (w : fs.World) (e : ImpersonationError)
      → (plugins.begin user domain pass w).0 ≡ refused e
      → depth (plugins.begin user domain pass w).1 ≡ depth w
  pub reverts : (t : plugins.Token) (w : fs.World) → depth (plugins.revert t w) ≡ depth w - 1
  pub runs :
      (lib : plugins.Lib) (request : Bytes) (w : fs.World)
      → depth (plugins.run_command lib request w).1 ≡ depth w
  pub logs : (l : Level) (msg : Bytes) (w : fs.World) → depth (plugins.log l msg w) ≡ depth w

module _ {D : Type 0} (fs : Files) (num : Numbers D) (plugins : Plugins fs) (depth : fs.World → ℕ)
    (q : Impersonates plugins depth) where
  run-Same :
      (ad : Adapter plugins.Lib) (request : Bytes) (w : fs.World)
      → depth (run fs num plugins ad request w).1 ≡ depth w
  unfolding run
  run-Same ad request w = q.runs ad.lib (c_str request) w

  run_begun-Same :
      (ad : Adapter plugins.Lib) (request user domain pass : Bytes) (w : fs.World)
      (b : Begun plugins.Token)
      → (plugins.begin user domain pass w).0 ≡ b
      → depth (run_begun fs num plugins ad request user b (plugins.begin user domain pass w).1).1
        ≡ depth w
  run_begun-Same ad request user domain pass w (refused e) h =
      q.logs _ _ _ ∙ q.refuses user domain pass w e h
  run_begun-Same ad request user domain pass w (begun t) h =
      let told = q.logs _ _ (plugins.begin user domain pass w).1 in
      q.reverts t _
      ∙ ap (λ n. n - 1) (run-Same ad request _ ∙ told ∙ q.begins user domain pass w t h)
      ∙ (omega arith)

  run_as-Same :
      (ad : Adapter plugins.Lib) (request : Bytes) (who : Bytes × Bytes × Bytes) (w : fs.World)
      → depth (run_as fs num plugins ad request who w).1 ≡ depth w
  unfolding run_as
  run_as-Same ad request (user, domain, pass) w = elim (Bool-cases (is_nil user)) [
    | inl y ↦ rw (run_as, y) (run-Same ad request w)
    | inr n ↦ rw (run_as, n) (run_begun-Same ad request user domain pass w _ refl)
  ]

  run_routed-Same :
      (o : Option (Adapter plugins.Lib)) (request : Bytes) (who : Bytes × Bytes × Bytes)
      (w : fs.World)
      → depth (run_routed fs num plugins o request who w).1 ≡ depth w
  run_routed-Same none request who w = refl
  run_routed-Same (some ad) request who w = run_as-Same ad request who w

  -- Whatever becomes of a request, no impersonation outlives its dispatch: an unknown adapter, a
  -- refused logon, a command that gives nothing and one that gives a result all leave as many in force
  -- on the thread as there were.
  pub dispatch-Reverts :
      (ads : List (Adapter plugins.Lib)) (request : Bytes) (w : fs.World)
      → depth (dispatch fs num plugins ads request w).1 ≡ depth w
  unfolding dispatch
  dispatch-Reverts ads request w =
      run_routed-Same (route ads (parse num.strtod request)) request
        (credentials (parse num.strtod request)) w
