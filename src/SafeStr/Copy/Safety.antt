-- ===== src/SafeStr/Copy/Safety.antt =====
-- What `strcpy_s` promises for every argument and every memory.
use learn_docs.Base.{
  ℕ, ◌≤◌, ◌<◌, ◌≡◌, ◌≢◌, refl, List, ◌==◌, ltb, length, arith, if_cases, sym, ap, ◌∙◌,
}
use learn_docs.Memory.{Ptr, null, StrAt, StrWithin-StrAt, StrAt-paste, paste}
use learn_docs.SafeStr.Defs.{
  World, Reply, eok, esnullp, rsize_max_str, refuse, fail, invoke_safe_str_constraint_handler,
}
use learn_docs.SafeStr.Effects.{SameBeyond, fail-mem, paste-SameBeyond}
use learn_docs.SafeStr.Meets.{Meets}
use learn_docs.SafeStr.Outcome.{gap, outcome, outcome-eok, scan, StrWithin-scan, kept}
use learn_docs.SafeStr.Copy.{strcpy_s}
use learn_docs.SafeStr.Copy.Strcpy.{strcpy_message, strcpy_s-Meets, reply-Meets}

-- The arguments that pass the guards.
record Passes (dest : Ptr) (dmax : ℕ) (src : Ptr) : Type 0 where
  dest_ok : dest ≢ null
  src_ok : src ≢ null
  room : 0 < dmax
  fits : dmax ≤ rsize_max_str

strcpy_s-Passes :
    (dest : Ptr) (dmax : ℕ) (src : Ptr) (w : World)
    → (strcpy_s dest dmax src w).0 ≡ eok
    → Passes dest dmax src
unfolding strcpy_s refuse fail
strcpy_s-Passes dest dmax src w e = ground arith

Meets-SameBeyond :
    (code : ℕ) (d : Ptr) (n : ℕ) (xs : List ℕ) (w : World) (r : Reply)
    → Meets strcpy_message code d n xs w r
    → SameBeyond d n w r.1
Meets-SameBeyond code d n xs w r m = paste-SameBeyond d n (kept code xs) w r.1 m.leaves

-- `strcpy_s` writes nowhere but in the `dmax` cells at `dest`, whatever its arguments are and
-- whatever stands in memory.
pub strcpy_s-SameBeyond :
    (dest : Ptr) (dmax : ℕ) (src : Ptr) (w : World)
    → SameBeyond dest dmax w (strcpy_s dest dmax src w).1
unfolding strcpy_s refuse invoke_safe_str_constraint_handler
strcpy_s-SameBeyond dest dmax src w =
    if_cases Frame (dest == null) _ _ (λ h a out. refl)
      λ h₁.
        if_cases Frame (dmax == 0) _ _ (λ h a out. refl)
          λ h₂.
            if_cases Frame (ltb rsize_max_str dmax) _ _ (λ h a out. refl)
              λ h₃.
                if_cases Frame (src == null) _ _
                  (λ h a out.
                    ground (arith, fail-mem dest dmax "strcpy_s: src is null" esnullp w a))
                  λ h₄.
                    if_cases Frame (dest == src) _ _ (λ h a out. refl)
                      λ h₅.
                        Meets-SameBeyond (outcome (length units) dmax (gap dest src)) dest dmax
                          units w _
                          (reply-Meets dest src dmax units w
                            (StrWithin-scan w.mem src (gap dest src)))
  where
    units : List ℕ
    units = scan w.mem src (gap dest src)

    Frame : Reply → Type 0
    Frame r = SameBeyond dest dmax w r.1

-- Whenever `strcpy_s` answers EOK between two places, a string stands at `src`, it is shorter
-- than the room at `dest`, and it stands at `dest` afterwards with its NUL.
pub strcpy_s-StrAt :
    (dest : Ptr) (dmax : ℕ) (src : Ptr) (w : World)
    → dest ≢ src
    → (strcpy_s dest dmax src w).0 ≡ eok
    → (xs : List ℕ) × StrAt w.mem src xs
      × StrAt (strcpy_s dest dmax src w).1.mem dest xs
      × (length xs < dmax)
strcpy_s-StrAt dest dmax src w ne e =
    let g = gap dest src in
    let xs = scan w.mem src g in
    let seen = StrWithin-scan w.mem src g in
    let ok = strcpy_s-Passes dest dmax src w e in
    let m = strcpy_s-Meets dest dmax src xs w ok.dest_ok ok.src_ok ne ok.room ok.fits seen in
    let done : outcome (length xs) dmax g ≡ eok = sym m.code_is ∙ e in
    let (room, before) = outcome-eok (length xs) dmax g done in
    let here = StrWithin-StrAt w.mem src g xs before seen in
    (
      xs,
      here,
      StrAt-paste w.mem src w.mem _ dest dmax xs room here
          (λ a. m.leaves a ∙ ap (λ (c : ℕ). paste dest dmax (kept c xs) w.mem a) done),
      room,
    )
