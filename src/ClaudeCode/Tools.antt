-- ===== src/ClaudeCode/Tools.antt =====
-- The tool names that ParseRequestResponse reports: each once, in the order of the strings.
use majordomo_steward.Prelude.{
  Bool, true, false, not, ◌&&◌, ◌||◌, List, [], ◌∷◌, Str, lit, str_eq, str_eq_sound, ◌≡◌, refl, ap,
  ◌∙◌, inl, inr, arith, Bool-cases,
}
use majordomo_steward.ClaudeCode.{Block, is_name, str_ltb, add_name, tool_names_of}

str_ltb_total : (s t : Str) → str_eq s t ≡ false → str_ltb s t ≡ false → str_ltb t s ≡ true
unfolding str_ltb
str_ltb_total [] [] h k = absurd (cc)
str_ltb_total [] (y ∷ t) h k = absurd (cc)
str_ltb_total (x ∷ s) [] h k = refl
str_ltb_total (x ∷ s) (y ∷ t) h k = ground (arith, str_ltb_total s t)

-- The names stand in strictly ascending order, the first of them after `n`.
abbrev pub IsAscendingFrom : Str → List Str → Type 0
IsAscendingFrom n [] = Unit
IsAscendingFrom n (m ∷ names) = (str_ltb n m ≡ true) × IsAscendingFrom m names

abbrev pub IsAscending : List Str → Type 0
IsAscending [] = Unit
IsAscending (n ∷ names) = IsAscendingFrom n names

add_name-IsAscendingFrom :
    (n name : Str) (names : List Str)
    → str_ltb n name ≡ true
    → IsAscendingFrom n names
    → IsAscendingFrom n (add_name name names)
unfolding add_name
add_name-IsAscendingFrom n name [] h a = (h, tt)
add_name-IsAscendingFrom n name (m ∷ names) h (k, a) = elim (Bool-cases (str_eq name m)) [
  | inl same ↦ rw same (k, a)
  | inr other ↦ elim (Bool-cases (str_ltb name m)) [
    | inl before ↦ rw (other, before) (h, (before, a))
    | inr after ↦
        rw (other, after)
          (k, add_name-IsAscendingFrom m name names (str_ltb_total name m other after) a)
  ]
]

add_name-IsAscending :
    (name : Str) (names : List Str) → IsAscending names → IsAscending (add_name name names)
unfolding add_name
add_name-IsAscending name [] a = tt
add_name-IsAscending name (m ∷ names) a = elim (Bool-cases (str_eq name m)) [
  | inl same ↦ rw same a
  | inr other ↦ elim (Bool-cases (str_ltb name m)) [
    | inl before ↦ rw (other, before) (before, a)
    | inr after ↦
        rw (other, after)
          (add_name-IsAscendingFrom m name names (str_ltb_total name m other after) a)
  ]
]

is_name-add_name :
    (n name : Str) (names : List Str)
    → is_name n (add_name name names) ≡ (str_eq name n || is_name n names)
unfolding add_name
is_name-add_name n name [] = refl
is_name-add_name n name (m ∷ names) = elim (Bool-cases (str_eq name m)) [
  | inl same ↦
      let at : name ≡ m = str_eq_sound name m same in
      rw same (ground (arith, ap (λ x. str_eq x n) at))
  | inr other ↦ elim (Bool-cases (str_ltb name m)) [
    | inl before ↦ rw (other, before) refl
    | inr after ↦ rw (other, after) (rw (is_name-add_name n name names) (ground arith))
  ]
]

-- Some block is a use of the tool.
abbrev pub uses_tool : Str → List Block → Bool
uses_tool n [] = false
uses_tool n (b ∷ content) =
    (str_eq b.kind (lit "tool_use") && not (str_eq b.name []) && str_eq b.name n)
    || uses_tool n content

-- For every response, the tool names that are reported stand in strictly ascending order, so that none
-- is there twice, and a name is among them exactly when some block of the response is a tool use of
-- that name, which is not empty.
pub tool_names_of-IsAscending :
    (content : List Block)
    → IsAscending (tool_names_of content)
      × ((n : Str) → is_name n (tool_names_of content) ≡ uses_tool n content)
unfolding tool_names_of
tool_names_of-IsAscending [] = (tt, λ n. refl)
tool_names_of-IsAscending (b ∷ content) =
    let (ascending, members) = tool_names_of-IsAscending content in
    elim (Bool-cases (str_eq b.kind (lit "tool_use") && not (str_eq b.name []))) [
      | inl used ↦ rw used (
        add_name-IsAscending b.name (tool_names_of content) ascending,
        λ n. is_name-add_name n b.name (tool_names_of content) ∙ rw (members n) (ground arith),
      )
      | inr other ↦ rw other (ascending, λ n. members n ∙ ground arith)
    ]
