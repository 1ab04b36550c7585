-- ===== src/Session/Logger/Format/Template.antt =====
-- Logger::format of ofe_session1_code/ofe/include/util/logger.h on a text with placeholders.
use rudra_org.Common.{
  ℕ, ◌≡◌, refl, ap, ◌∙◌, ◌==◌, Bool, true, false, ◌&&◌, Option, none, some, List, [], ◌∷◌, ◌++◌,
  All, if◌then◌else◌,
}
use rudra_org.Common.Text.{Text}
use rudra_org.Session.Logger.Format.{with_first, find_placeholder, format}

abbrev pub placeholder : Text
placeholder = b'{' ∷ b'}' ∷ []

-- A text without a placeholder.
abbrev pub IsPlain : Text → Type 0
IsPlain cs = find_placeholder cs ≡ none

-- The pieces with a placeholder behind each, and the last piece.
abbrev pub template : List Text → Text → Text
template [] last = last
template (p ∷ ps) last = p ++ (placeholder ++ template ps last)

-- The pieces with an argument behind each. Where the arguments run out, the placeholders stay, and
-- further arguments are dropped.
abbrev pub filled : List Text → Text → List Text → Text
filled [] last vals = last
filled (p ∷ ps) last [] = template (p ∷ ps) last
filled (p ∷ ps) last (val ∷ vals) = p ++ (val ++ filled ps last vals)

-- A text of two characters or more without a placeholder starts with none, and has none behind its
-- first character.
IsPlain-inv :
    (found : Bool) (c : ℕ) (here : Text × Text) (further : Option (Text × Text))
    → (if found then some here else with_first c further) ≡ none
    → (found ≡ false) × (further ≡ none)
IsPlain-inv true c here further e = cc
IsPlain-inv false c here none e = (refl, refl)
IsPlain-inv false c here (some x) e = cc

pass :
    (found : Bool) (here : Text × Text) (further : Option (Text × Text))
    → found ≡ false
    → (if found then some here else further) ≡ further
pass true here further e = cc
pass false here further e = refl

and_false : (b : Bool) → (b && false) ≡ false
and_false true = refl
and_false false = refl

find_placeholder-append :
    (p rest : Text) → IsPlain p → find_placeholder (p ++ (placeholder ++ rest)) ≡ some (p, rest)
unfolding find_placeholder
find_placeholder-append [] rest plain = refl
find_placeholder-append (c ∷ []) rest plain = pass _ _ _ (and_false (c == b'{'))
find_placeholder-append (c ∷ c' ∷ cs) rest plain =
    let (first, tail) =
      IsPlain-inv ((c == b'{') && (c' == b'}')) c _ (find_placeholder (c' ∷ cs)) plain in
    pass _ _ _ first ∙ ap (with_first c) (find_placeholder-append (c' ∷ cs) rest tail)

format_plain : (vals : List Text) (last : Text) → IsPlain last → format last vals ≡ last
unfolding format
format_plain [] last plain = refl
format_plain (val ∷ vals) last plain = rw (plain, format) refl

-- Each placeholder, which is `{}` and nothing else, is replaced by the argument of its place, and
-- nothing else of the message changes: a `{:#x}` stays as it is and takes no argument. An argument
-- is not searched for placeholders. Where the arguments run out the placeholders stay, and further
-- arguments are dropped.
pub format-template :
    (pieces : List Text) (last : Text) (vals : List Text)
    → All IsPlain pieces
    → IsPlain last
    → format (template pieces last) vals ≡ filled pieces last vals
unfolding format
format-template [] last vals plain end = format_plain vals last end
format-template (p ∷ ps) last [] plain end = refl
format-template (p ∷ ps) last (val ∷ vals) plain end =
    let found = find_placeholder-append p (template ps last) plain.0 in
    let further = format-template ps last vals plain.1 end in
    rw (found, format) (ap (λ (t : Text). p ++ (val ++ t)) further)
