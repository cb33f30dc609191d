-- ===== src/FsAdapter/Store.antt =====
-- What the commands of the file system adapter rely on: std::filesystem and the streams as changes
-- of a store, the content of each regular file by its path, and core/src/vc_fs.cpp over it.
use vericonnect_agent.Common.{Error, ok, err, error, exists, io}
use vericonnect_agent.Fs.{Files, mkdir, remove_file, move}
use vericonnect_agent.Json.{same_text}
use vericonnect_agent.Prelude.{
  ◌≡◌, refl, sym, ap, ◌∙◌, ◌≢◌, ◌⊎◌, inl, inr, Bool, true, false, Option, none, some, [], ◌∷◌,
  arith, Bytes, ◌==◌, if◌then◌else◌, ==_refl, Bool-cases,
}

abbrev pub is_some {ℓ} : {A : Type ℓ} → Option A → Bool
is_some none = false
is_some (some a) = true

pub same_text_refl : (p : Bytes) → same_text p p ≡ true
unfolding same_text
same_text_refl [] = refl
same_text_refl (c ∷ p) = rw (==_refl, same_text_refl p) refl

pub same_text-eq : (p q : Bytes) → same_text p q ≡ true → p ≡ q
unfolding same_text
same_text-eq [] [] h = refl
same_text-eq [] (c ∷ q) h = cc
same_text-eq (c ∷ p) [] h = cc
same_text-eq (c ∷ p) (d ∷ q) h = ground (arith, same_text-eq p q)

pub same_text-ne : (p q : Bytes) → p ≢ q → same_text p q ≡ false
same_text-ne p q n = elim (Bool-cases (same_text p q)) [
  | inl y ↦ absurd (n (same_text-eq p q y))
  | inr m ↦ m
]

-- `store w p` is the content of the regular file at `p`, and `is_same p q` says that the two paths
-- name the same file, under one text or two. A write that fails may leave its own file in any state.
pub record Disk (fs : Files) (store : fs.World → Bytes → Option Bytes)
    (is_same : Bytes → Bytes → Bool) : Type 0 where
  pub itself : (p : Bytes) → is_same p p ≡ true
  pub alias : (p q : Bytes) (w : fs.World) → is_same p q ≡ true → store w p ≡ store w q
  pub regular : (p : Bytes) (w : fs.World) → fs.is_regular_file p w ≡ is_some (store w p)
  pub there : (p : Bytes) (w : fs.World) → fs.is_regular_file p w ≡ true → fs.is_there p w ≡ true
  pub created : (p q : Bytes) (w : fs.World) → store (fs.create_directory p w).1 q ≡ store w q
  pub removed :
      (p q : Bytes) (w : fs.World)
      → (fs.remove p w).0.0 ≡ true
      → store (fs.remove p w).1 q ≡ (if is_same q p then none else store w q)
  pub not_removed :
      (p q : Bytes) (w : fs.World)
      → (fs.remove p w).0.0 ≡ false
      → store (fs.remove p w).1 q ≡ store w q
  pub renamed :
      (from to q : Bytes) (w : fs.World)
      → ((fs.rename from to w).0 == 0) ≡ true
      → store (fs.rename from to w).1 q
        ≡ (if is_same q to then store w from else if is_same q from then none else store w q)
  pub not_renamed :
      (from to q : Bytes) (w : fs.World)
      → ((fs.rename from to w).0 == 0) ≡ false
      → store (fs.rename from to w).1 q ≡ store w q
  pub written :
      (p bs q : Bytes) (w : fs.World)
      → (fs.write_stream p bs w).0 ≡ ok tt
      → store (fs.write_stream p bs w).1 q ≡ (if is_same q p then some bs else store w q)
  pub not_written :
      (p bs q : Bytes) (w : fs.World)
      → is_same q p ≡ false
      → store (fs.write_stream p bs w).1 q ≡ store w q
  pub read : (p bs : Bytes) (w : fs.World) → fs.read_stream p w ≡ ok bs → store w p ≡ some bs

module _ (fs : Files) (store : fs.World → Bytes → Option Bytes) (is_same : Bytes → Bytes → Bool)
    (d : Disk fs store is_same) where
  -- The two worlds hold the same files.
  abbrev pub Same : fs.World → fs.World → Type 0
  Same w w' = (q : Bytes) → store w' q ≡ store w q

  -- The file `from` is at `to` now.
  abbrev pub Moved : Bytes → Bytes → fs.World → fs.World → Type 0
  Moved from to w w' =
      (q : Bytes)
      → store w' q
        ≡ (if is_same q to then store w from else if is_same q from then none else store w q)

  abbrev pub Removed : Bytes → fs.World → fs.World → Type 0
  Removed p w w' = (q : Bytes) → store w' q ≡ (if is_same q p then none else store w q)

  -- The file is at its new place, with the bytes that it had.
  abbrev pub IsMoved : Bytes → Bytes → Bytes → fs.World → fs.World → Type 0
  IsMoved src dest bs w w' =
      (store w' dest ≡ some bs)
      × (store w' src ≡ none)
      × ((q : Bytes) → is_same q src ≡ false → is_same q dest ≡ false → store w' q ≡ store w q)

  -- The file is where it was, with the bytes that it had.
  abbrev pub IsKept : Bytes → Bytes → Bytes → fs.World → fs.World → Type 0
  IsKept src dest bs w w' =
      (store w' src ≡ some bs) × ((q : Bytes) → is_same q dest ≡ false → store w' q ≡ store w q)

  pub mkdir-Same : (p : Bytes) (w : fs.World) → Same w (mkdir fs p w).1
  unfolding mkdir
  mkdir-Same p w q = elim (Bool-cases ((fs.create_directory p w).0.0)) [
    | inl y ↦ rw (mkdir, y) (d.created p q w)
    | inr n ↦ elim (Bool-cases (fs.is_directory p (fs.create_directory p w).1)) [
      | inl y ↦ rw (mkdir, n, y) (d.created p q w)
      | inr m ↦ rw (mkdir, n, m) (d.created p q w)
    ]
  ]

  pub remove_file-cases :
      (p : Bytes) (w : fs.World)
      → (((remove_file fs p w).0 ≡ ok tt) × Removed p w (remove_file fs p w).1)
        ⊎ ((e : Error) × (((remove_file fs p w).0 ≡ err e) × Same w (remove_file fs p w).1))
  unfolding remove_file
  remove_file-cases p w = elim (Bool-cases ((fs.remove p w).0.0)) [
    | inl y ↦ inl (rw (remove_file, y) (refl, λ q. d.removed p q w y))
    | inr n ↦ inr (
      record { code = io; os_code = (fs.remove p w).0.1 },
      rw (remove_file, n) (refl, λ q. d.not_removed p q w n),
    )
  ]

  pub move-cases :
      (from to : Bytes) (w : fs.World)
      → (((move fs from to w).0 ≡ ok tt) × Moved from to w (move fs from to w).1)
        ⊎ ((e : Error) × (((move fs from to w).0 ≡ err e) × Same w (move fs from to w).1))
  unfolding move
  move-cases from to w = elim (Bool-cases (fs.is_there to w)) [
    | inl y ↦ inr (error exists, rw (move, y) (refl, λ q. refl))
    | inr n ↦ elim (Bool-cases ((fs.rename from to w).0 == 0)) [
      | inl y ↦ inl (rw (move, n, y) (refl, λ q. d.renamed from to q w y))
      | inr m ↦ inr (
        record { code = io; os_code = (fs.rename from to w).0 },
        rw (move, n, m) (refl, λ q. d.not_renamed from to q w m),
      )
    ]
  ]

  pub mkdir_unless-Same :
      (b : Bool) (p : Bytes) (w : fs.World) → Same w (if b then (mkdir fs p w).1 else w)
  mkdir_unless-Same true p w = mkdir-Same p w
  mkdir_unless-Same false p w = λ q. refl

  pub exists-Same :
      (p : Bytes) (w w' : fs.World) → Same w w' → fs.is_regular_file p w' ≡ fs.is_regular_file p w
  exists-Same p w w' h = d.regular p w' ∙ ap is_some (h p) ∙ sym (d.regular p w)

  -- Removing a file leaves the others.
  pub remove_file-other :
      (b : Bool) (p q : Bytes) (w : fs.World)
      → is_same q p ≡ false
      → store (if b then (remove_file fs p w).1 else w) q ≡ store w q
  remove_file-other false p q w n = refl
  remove_file-other true p q w n = elim (remove_file-cases p w) [
    | inl r ↦ r.1 q ∙ ap (λ b. if b then none else store w q) n
    | inr r ↦ r.1.1 q
  ]
