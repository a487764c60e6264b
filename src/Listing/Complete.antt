-- ===== src/Listing/Complete.antt =====
-- Reading the pages of the module list one after the other, and what of a stack is shown.
use go_kd.Prelude.{
  length-map, ℕ, zero, suc, ◌+◌, ◌-◌, ◌*◌, ◌≤◌, ◌<◌, ◌≡◌, refl, sym, ap, ◌∙◌, inl, inr, Bool, true,
  false, Option, none, List, [], ◌∷◌, ◌++◌, map, arith, ltb, length, take, drop, length-drop,
  take_of_length-le, take-append-drop, drop-drop, ltb→lt, ltb→le, lt→ltb, le→ltb, Bool-cases,
  if◌then◌else◌,
}
use go_kd.Prelude.Int.{ℤ, pos, negsuc}
use go_kd.Text.{Text, is_empty, trim_space, trim_left, trim_right}
use go_kd.Errors.{ok, err}
use go_kd.Events.{Module}
use go_kd.Listing.{
  ModuleInfo, format_module, filter_modules, ModulesOutput, limit_within, page_modules, get_modules,
  default_modules_limit, max_modules_limit, Frame, format_frame, StackOutput, get_stack,
  default_stack_frames, max_stack_frames,
}

limit_within-bounds :
    (d m : ℕ) (given : ℤ)
    → 0 < d
    → d ≤ m
    → (0 < limit_within d m given) × (limit_within d m given ≤ m)
unfolding limit_within
limit_within-bounds d m (pos n) h h' = ground arith
limit_within-bounds d m (negsuc n) h h' = ground arith

page-more :
    (l : List ModuleInfo) (limit offset : ℕ)
    → offset + limit < length l
    → page_modules l limit (pos offset) ≡ record {
      modules = take limit (drop offset l);
      total = length l;
      returned = length (take limit (drop offset l));
      next_offset = offset + limit;
      truncated = true;
    }
unfolding page_modules
page-more l limit offset h =
    let exact : offset + limit - offset ≡ limit = omega arith in
    rw (
      le→ltb (length l) offset (omega arith),
      le→ltb (length l) (offset + limit) (omega arith),
      lt→ltb (offset + limit) (length l) h,
      exact,
    )

page-last :
    (l : List ModuleInfo) (limit offset : ℕ)
    → offset ≤ length l
    → length l ≤ offset + limit
    → page_modules l limit (pos offset) ≡ record {
      modules = drop offset l;
      total = length l;
      returned = length (drop offset l);
      next_offset = 0;
      truncated = false;
    }
unfolding page_modules
page-last l limit offset h h' = elim (Bool-cases (ltb (length l) (offset + limit))) [
  | inl e ↦ rw (
    le→ltb (length l) offset h,
    e,
    le→ltb (length l) (length l) (omega arith),
    take_of_length-le (length l - offset) (drop offset l) (omega (arith, length-drop offset l)),
  )
  | inr e ↦
      let exact : offset + limit - offset ≡ limit = omega arith in
      rw (
        le→ltb (length l) offset h,
        e,
        le→ltb (offset + limit) (length l) h',
        exact,
        take_of_length-le limit (drop offset l) (omega (arith, length-drop offset l)),
      )
]

module _ (mods : List Module) (matches : Text → Text → Option Bool) (limit : ℤ) where
  -- A client asks for all modules, again at the next offset while the answer is cut short.
  unfoldable pub read_modules : ℕ → ℕ → List ModuleInfo
  read_modules zero offset = []
  read_modules (suc fuel) offset = elim (get_modules none (ok mods) matches [] (pos offset) limit) [
    | err e ↦ []
    | ok page ↦
        let rest = read_modules fuel page.next_offset in
        if page.truncated then page.modules ++ rest else page.modules
  ]

  abbrev filtered : List ModuleInfo
  filtered = filter_modules matches [] mods

  abbrev step_limit : ℕ
  step_limit = limit_within default_modules_limit max_modules_limit limit

  abbrev and_then : ℕ → ModulesOutput → List ModuleInfo
  and_then fuel page =
      let rest = read_modules fuel page.next_offset in
      if page.truncated then page.modules ++ rest else page.modules

  read_modules-suc :
      (fuel offset : ℕ)
      → read_modules (suc fuel) offset
        ≡ and_then fuel (page_modules filtered step_limit (pos offset))
  unfolding read_modules get_modules trim_space trim_left trim_right is_empty
  read_modules-suc fuel offset = refl

  read_from :
      (fuel offset : ℕ)
      → offset ≤ length filtered
      → length filtered ≤ offset + suc fuel * step_limit
      → read_modules (suc fuel) offset ≡ drop offset filtered
  read_from zero offset le enough =
      read_modules-suc 0 offset
      ∙ ap (and_then 0) (page-last filtered step_limit offset le (omega arith))
  read_from (suc fuel) offset le enough =
      elim (Bool-cases (ltb (offset + step_limit) (length filtered))) [
        | inl more ↦
            let many : offset + step_limit < length filtered = ltb→lt _ _ more in
            read_modules-suc (suc fuel) offset
            ∙ ap (and_then (suc fuel)) (page-more filtered step_limit offset many)
            ∙ ap (take step_limit (drop offset filtered) ++◌) (
                read_from fuel (offset + step_limit) (omega arith) (omega arith)
                ∙ sym (drop-drop step_limit offset filtered))
            ∙ take-append-drop step_limit (drop offset filtered)
        | inr last ↦
            read_modules-suc (suc fuel) offset
            ∙ ap (and_then (suc fuel)) (page-last filtered step_limit offset le (ltb→le _ _ last))
      ]

filter_modules-all :
    (matches : Text → Text → Option Bool) (mods : List Module)
    → filter_modules matches [] mods ≡ map format_module mods
unfolding filter_modules is_empty
filter_modules-all matches [] = refl
filter_modules-all matches (m ∷ ms) = ap (format_module m ∷◌) (filter_modules-all matches ms)

le-mul : (f n : ℕ) → 0 < n → f ≤ f * n
le-mul zero n h = omega arith
le-mul (suc f) n h = omega (arith, le-mul f n h)

-- Whatever limit a client asks for, and whatever `filepath.Match` does: the pages of `get_modules`
-- without a glob, read from offset 0 in as many rounds as there are modules, are together every
-- module that the engine listed, as it is shown, each once and in order.
pub read_modules_complete :
    (mods : List Module) (matches : Text → Text → Option Bool) (limit : ℤ) (fuel : ℕ)
    → length mods ≤ suc fuel
    → read_modules mods matches limit (suc fuel) 0 ≡ map format_module mods
read_modules_complete mods matches limit fuel enough =
    let n = limit_within default_modules_limit max_modules_limit limit in
    let (room, bound) =
      limit_within-bounds default_modules_limit max_modules_limit limit (omega arith)
        (omega arith) in
    let all : filter_modules matches [] mods ≡ map format_module mods =
      filter_modules-all matches mods in
    let size : length (filter_modules matches [] mods) ≡ length mods =
      ap length all ∙ length-map format_module mods in
    let product : suc fuel ≤ suc fuel * n = le-mul (suc fuel) n room in
    read_from mods matches limit fuel 0 (omega arith) (omega arith) ∙ all

-- Whatever limit a client asks for, `get_stack` shows the innermost frames, up to a limit of at least
-- one and at most 256, and says exactly if there are more.
pub get_stack-take :
    (frames : List Frame) (max_frames : ℤ)
    → (k : ℕ) × (out : StackOutput) × (get_stack none (ok frames) max_frames ≡ ok out)
      × (0 < k)
      × (k ≤ 256)
      × (out.frames ≡ map format_frame (take k frames))
      × (out.truncated ≡ ltb k (length frames))
unfolding get_stack
get_stack-take frames max_frames =
    let limit = limit_within default_stack_frames max_stack_frames max_frames in
    let (room, bound) =
      limit_within-bounds default_stack_frames max_stack_frames max_frames (omega arith)
        (omega arith) in
    (limit, _, refl, room, bound, ap (map format_frame) (cut limit frames), refl)
  where
    cut : (k : ℕ) (l : List Frame) → (if ltb k (length l) then take k l else l) ≡ take k l
    cut k l = elim (Bool-cases (ltb k (length l))) [
      | inl e ↦ rw e
      | inr e ↦ rw e (sym (take_of_length-le k l (ltb→le k (length l) e)))
    ]
