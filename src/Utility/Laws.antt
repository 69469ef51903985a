-- ===== src/Utility/Laws.antt =====
-- `endswith1of` tests for a suffix.
use cake.Prelude.{
  ◌≡◌, ◌∙◌, sym, ap, ◌↔◌, ◌⊎◌, true, ◌-◌, List, [], ◌∷◌, ◌++◌, arith, Bool-cases, inl, inr, length,
  drop, take, ltb, subst, take-append-drop, drop-length-append, length-append,
}
use cake.Text.{Text, str_eq, str_eq_iff}
use cake.Utility.{endswith1of}

-- Some entry of the list is a suffix.
abbrev pub HasSuffix : Text → List Text → Type 0
HasSuffix str [] = ⊥
HasSuffix str (end ∷ ends) = ((p : Text) × (str ≡ p ++ end)) ⊎ HasSuffix str ends

drop_suffix : (p end : Text) → drop (length (p ++ end) - length end) (p ++ end) ≡ end
drop_suffix p end =
    let e : length (p ++ end) - length end ≡ length p = omega (arith, length-append p end) in
    rw e (drop-length-append p end)

endswith1of-HasSuffix :
    (str : Text) (ends : List Text) → endswith1of str ends ≡ true → HasSuffix str ends
unfolding endswith1of
endswith1of-HasSuffix str [] h = cc
endswith1of-HasSuffix str (end ∷ ends) h = elim (Bool-cases (ltb (length str) (length end))) [
  | inl longer ↦ inr (endswith1of-HasSuffix str ends (ground arith))
  | inr fits ↦ elim (Bool-cases (str_eq (drop (length str - length end) str) end)) [
    | inl hit ↦ inl (
      take (length str - length end) str,
      sym (take-append-drop (length str - length end) str)
          ∙ ap (◌++◌ (take (length str - length end) str)) ((str_eq_iff _ end).0 hit),
    )
    | inr miss ↦ inr (endswith1of-HasSuffix str ends (ground arith))
  ]
]

suffix-endswith1of : (p end : Text) (ends : List Text) → endswith1of (p ++ end) (end ∷ ends) ≡ true
unfolding endswith1of
suffix-endswith1of p end ends = ground (
  arith,
  drop_suffix p end,
  length-append p end,
  str_eq_iff (drop (length (p ++ end) - length end) (p ++ end)) end,
)

HasSuffix-endswith1of :
    (str : Text) (ends : List Text) → HasSuffix str ends → endswith1of str ends ≡ true
unfolding endswith1of
HasSuffix-endswith1of str [] h = elim h [ ]
HasSuffix-endswith1of str (end ∷ ends) (inl (p, e)) =
    subst (λ s. endswith1of s (end ∷ ends) ≡ true) (sym e) (suffix-endswith1of p end ends)
HasSuffix-endswith1of str (end ∷ ends) (inr h) = ground (arith, HasSuffix-endswith1of str ends h)

-- `endswith1of` holds exactly when some entry of the list is a suffix of the text.
pub endswith1of_iff :
    (str : Text) (ends : List Text) → (endswith1of str ends ≡ true) ↔ HasSuffix str ends
endswith1of_iff str ends = (endswith1of-HasSuffix str ends, HasSuffix-endswith1of str ends)
