-- ===== src/Registry/Offers.antt =====
-- Which tools a server offers, under every combination of its flags.
use go_kd.Prelude.{◌≡◌, refl, Bool, not, ◌&&◌, ◌||◌, String, List, [], ◌∷◌, arith, str_eq, eq_iff}
use go_kd.Readonly.{Tool, mutating_tools, is_listed, add_tool_maybe}
use go_kd.Registry.{
  tools_before_raw, tools_after_raw, lablink_tools, add_all, add_execute_raw, register_tools,
  offers,
}

-- Readonly mode withholds the mutating tools.
abbrev pub withheld : Bool → String → Bool
withheld readonly name = readonly && is_listed name mutating_tools

offers-add_tool_maybe :
    (readonly : Bool) (tools : List Tool) (n name : String)
    → offers name (add_tool_maybe readonly tools n)
      ≡ ((str_eq n name && not (withheld readonly name)) || offers name tools)
unfolding offers add_tool_maybe
offers-add_tool_maybe readonly tools n name = ground (arith, eq_iff n name)

offers-add_all :
    (readonly : Bool) (ns : List String) (tools : List Tool) (name : String)
    → offers name (add_all readonly tools ns)
      ≡ ((is_listed name ns && not (withheld readonly name)) || offers name tools)
unfolding add_all is_listed
offers-add_all readonly [] tools name = refl
offers-add_all readonly (n ∷ ns) tools name = ground (
  arith,
  offers-add_all readonly ns (add_tool_maybe readonly tools n) name,
  offers-add_tool_maybe readonly tools n name,
)

offers-add_execute_raw :
    (readonly unsafe_raw : Bool) (tools : List Tool) (name : String)
    → offers name (add_execute_raw readonly unsafe_raw tools)
      ≡ ((str_eq "execute_raw" name && (not readonly || unsafe_raw)) || offers name tools)
unfolding add_execute_raw offers
offers-add_execute_raw readonly unsafe_raw tools name = ground arith

-- The tools of the typed surface, without `execute_raw`.
abbrev pub typed_tool : Bool → String → Bool
typed_tool lablink name =
    is_listed name tools_before_raw
    || is_listed name tools_after_raw
    || (lablink && is_listed name lablink_tools)

-- Under every combination of its flags, a server offers exactly these tools: the typed ones (with
-- the two of lablink if that is enabled) but the mutating ones of them if it is readonly, and
-- `execute_raw` unless it is readonly and raw commands were not allowed.
pub offers-register_tools :
    (readonly unsafe_raw lablink : Bool) (name : String)
    → offers name (register_tools readonly unsafe_raw lablink) ≡ (
        (typed_tool lablink name && not (withheld readonly name))
        || (str_eq "execute_raw" name && (not readonly || unsafe_raw)))
unfolding register_tools offers
offers-register_tools readonly unsafe_raw lablink name =
    let first = add_all readonly [] tools_before_raw in
    let raw = add_execute_raw readonly unsafe_raw first in
    ground (
      arith,
      offers-add_all readonly tools_before_raw [] name,
      offers-add_execute_raw readonly unsafe_raw first name,
      offers-add_all readonly tools_after_raw raw name,
      offers-add_all readonly lablink_tools (add_all readonly raw tools_after_raw) name,
    )
