-- ===== src/Files/Create/Documented.antt =====
-- The creation dispositions of `CreateFileA` against the Windows documentation.
use learn_docs.Base.{
  ℕ, ◌+◌, ◌/◌, ◌%◌, ◌^◌, ◌≤◌, ◌≡◌, ◌≢◌, ◌⊎◌, refl, ◌∙◌, Bool, true, false, some, ◌==◌,
  if◌then◌else◌, arith, Bool-cases, inl, inr, ne→==, Option-cases,
}
use learn_docs.Files.Text.{Text}
use learn_docs.Files.System.{FileSystem, Removes}
use learn_docs.Files.Create.{
  has_bit, create_new, create_always, open_existing, open_always, truncate_existing, o_creat,
  o_trunc, access_flags, attribute_flags, Plan, plan, disposition, open_flags,
}

-- What a call does to the file: it is left alone and no descriptor comes, it is opened with its
-- contents, it is an empty file that is opened, or nothing is promised.
pub data Effect : Type 0 where
  refuses opens empties unspecified : Effect

-- What the Windows documentation says of each disposition, by whether the file exists, with an access
-- that the disposition allows: TRUNCATE_EXISTING asks for GENERIC_WRITE.
pub documented : ℕ → Bool → Effect
documented d there =
    if d == create_always
    then empties
    else if d == create_new
    then if there then refuses else empties
    else if d == open_always
    then if there then opens else empties
    else if d == open_existing
    then if there then opens else refuses
    else if d == truncate_existing
    then if there then empties else refuses
    else refuses

-- What POSIX says of `open` with these flags, where the directory and the rights allow it: O_TRUNC
-- of a file that is opened for reading only, O_RDONLY, is undefined.
pub posix : Bool → ℕ → Bool → Effect
posix valid flags there =
    if valid
    then if there
      then if has_bit 9 flags then if flags % 4 == 0 then unspecified else empties else opens
      else if has_bit 6 flags
      then empties
      else refuses
    else refuses

access_flags-le : (access : ℕ) → access_flags access ≤ 2
unfolding access_flags
access_flags-le access = ground arith

-- No attribute touches the bits 0 to 11.
attribute_flags-low : (attributes : ℕ) → attribute_flags attributes % 4096 ≡ 0
unfolding attribute_flags
attribute_flags-low attributes = elim (Bool-cases (has_bit 31 attributes)) [
  | inl e ↦ rw e refl
  | inr e ↦ elim (Bool-cases (has_bit 29 attributes)) [
    | inl f ↦ rw (e, f) refl
    | inr f ↦ rw (e, f) refl
  ]
]

-- The access and the attributes do not touch O_CREAT and O_TRUNC.
abbrev IsPlanned : ℕ → Type 0
IsPlanned f = (f ≡ 0) ⊎ ((f ≡ o_creat) ⊎ (f ≡ o_trunc))

kept_bits :
    (a f t : ℕ)
    → a ≤ 2
    → t % 4096 ≡ 0
    → IsPlanned f
    → (((a + f + t) / 2 ^ 9) % 2 ≡ (f / 2 ^ 9) % 2)
      × (((a + f + t) / 2 ^ 6) % 2 ≡ (f / 2 ^ 6) % 2)
      × ((a + f + t) % 4 ≡ a)
kept_bits a f t h k (inl e) = omega arith
kept_bits a f t h k (inr (inl e)) = omega arith
kept_bits a f t h k (inr (inr e)) = omega arith

-- What the planned flags say, for a file that may be truncated or for flags that do not truncate.
abbrev planned_effect : Bool → ℕ → Bool → Effect
planned_effect valid f there =
    if valid
    then if there
      then if has_bit 9 f then empties else opens
      else if has_bit 6 f
      then empties
      else refuses
    else refuses

posix-open_flags :
    {S : Type 0} (fs : FileSystem S) (access attributes : ℕ) (p : Plan) (there : Bool)
    → IsPlanned p.flags
    → (p.flags ≢ o_trunc) ⊎ (access_flags access ≢ 0)
    → posix p.valid (open_flags fs access attributes p) there ≡ planned_effect p.valid p.flags there
unfolding posix
posix-open_flags fs access attributes p there planned allowed =
    let (trunc, creat, low) =
      kept_bits (access_flags access) p.flags (attribute_flags attributes) (access_flags-le access)
        (attribute_flags-low attributes) planned in
    elim (Bool-cases (has_bit 9 p.flags)) [
      | inr e ↦ rw (trunc, creat, low, e) refl
      | inl e ↦
          let writes : access_flags access ≢ 0 =
            written (access_flags access) p.flags planned allowed e in
          rw (trunc, creat, low, e, ne→== (access_flags access) 0 writes) refl
    ]
  where
    written : (a f : ℕ) → IsPlanned f → (f ≢ o_trunc) ⊎ (a ≢ 0) → has_bit 9 f ≡ true → a ≢ 0
    written a f k (inr n) e = n
    written a f (inl k) (inl n) e = absurd (ground arith)
    written a f (inr (inl k)) (inl n) e = absurd (ground arith)
    written a f (inr (inr k)) (inl n) e = absurd (n k)

module _ {S : Type 0} (fs : FileSystem S) where
  disposition-IsPlanned :
      (d : ℕ) (path : Text) (s s' : S) (p : Plan)
      → disposition fs d path s ≡ some (p, s')
      → IsPlanned p.flags
  unfolding disposition
  disposition-IsPlanned d path s s' p e = elim (Bool-cases (p.flags == 0)) [
    | inl z ↦ inl (ground arith)
    | inr z ↦ elim (Bool-cases (p.flags == o_creat)) [
      | inl c ↦ inr (inl (ground arith))
      | inr c ↦ inr (
          inr (elim (Option-cases (fs.remove path s)) [
            | inl r ↦ ground arith
            | inr (r, q) ↦ ground arith
          ]))
    ]
  ]

  disposition-posix :
      (d : ℕ) (path : Text) (s s' : S) (p : Plan)
      → Removes fs
      → d ≢ create_new
      → disposition fs d path s ≡ some (p, s')
      → planned_effect p.valid p.flags (fs.exists s' path) ≡ documented d (fs.exists s path)
  unfolding disposition documented
  disposition-posix d path s s' p removes n e = elim (Option-cases (fs.remove path s)) [
    | inl r ↦ ground arith
    | inr ((b, s₁), q) ↦ ground (arith, removes.removed path b s s₁)
  ]

  disposition-truncates :
      (d : ℕ) (path : Text) (s s' : S) (p : Plan)
      → disposition fs d path s ≡ some (p, s')
      → d ≢ truncate_existing
      → p.flags ≢ o_trunc
  unfolding disposition
  disposition-truncates d path s s' p e n t = elim (Option-cases (fs.remove path s)) [
    | inl r ↦ absurd (ground arith)
    | inr (r, q) ↦ absurd (ground arith)
  ]

writes_of_access : (access : ℕ) → has_bit 30 access ≡ true → access_flags access ≢ 0
unfolding access_flags
writes_of_access access w e = ground arith

module _ {S : Type 0} (fs : FileSystem S) (removes : Removes fs) where
  -- For every disposition but CREATE_NEW and every access and attributes, TRUNCATE_EXISTING with
  -- GENERIC_WRITE only, where boost::filesystem throws nothing and what it removes is gone, the
  -- flags that `CreateFileA` passes to `open` do to the file, as it stands then, what the
  -- Windows documentation says of the disposition.
  pub disposition-documented :
      (d access attributes : ℕ) (path : Text) (s s' : S) (p : Plan)
      → d ≢ create_new
      → (d ≢ truncate_existing) ⊎ (has_bit 30 access ≡ true)
      → disposition fs d path s ≡ some (p, s')
      → posix p.valid (open_flags fs access attributes p) (fs.exists s' path)
        ≡ documented d (fs.exists s path)
  disposition-documented d access attributes path s s' p n writes e =
      posix-open_flags fs access attributes p (fs.exists s' path)
        (disposition-IsPlanned fs d path s s' p e) (allowed writes)
      ∙ disposition-posix fs d path s s' p removes n e
    where
      allowed :
          (d ≢ truncate_existing) ⊎ (has_bit 30 access ≡ true)
          → (p.flags ≢ o_trunc) ⊎ (access_flags access ≢ 0)
      allowed (inl k) = inl (disposition-truncates fs d path s s' p e k)
      allowed (inr w) = inr (writes_of_access access w)

-- With CREATE_NEW `CreateFileA` opens a file that exists, and makes none where there is none.
pub create_new-posix :
    {S : Type 0} (fs : FileSystem S) (access attributes : ℕ) (path : Text) (s : S)
    → (p : Plan) × (disposition fs create_new path s ≡ some (p, s))
      × (posix p.valid (open_flags fs access attributes p) (fs.exists s path)
          ≡ (if fs.exists s path then opens else refuses))
unfolding disposition posix
create_new-posix fs access attributes path s = (
  plan true 0 0,
  refl,
  posix-open_flags fs access attributes (plan true 0 0) (fs.exists s path) (inl refl)
        (inl (ground arith))
      ∙ low (fs.exists s path),
)
  where
    low : (b : Bool) → planned_effect true 0 b ≡ (if b then opens else refuses)
    low true = refl
    low false = refl
