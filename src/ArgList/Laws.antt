-- ===== src/ArgList/Laws.antt =====
-- arglist.h: what stands in the vector of arguments.
use mathlib.Core.List.{foldl-append}
use cake.Prelude.{
  ◌≢◌, ◌≡◌, refl, sym, ◌∙◌, ap, false, ◌||◌, ◌<◌, List, [], ◌∷◌, ◌++◌, foldl, arith, All,
  All-append, length, Bool-cases, inl, inr, append_assoc, append-nil, lt→ltb,
}
use cake.Text.{Text, has_byte, str_eq, str_eq_iff, tokens}
use cake.Text.Tokens.{IsWord, spaced, tokens-spaced, tokens-IsWord}
use cake.ArgList.{ArgList, contains, add_arg, add_args, blanks, line_buffer, insert_spacedelim}

pub contains-append :
    (xs ys : ArgList) (s : Text) → contains (xs ++ ys) s ≡ (contains xs s || contains ys s)
unfolding contains
contains-append [] ys s = refl
contains-append (x ∷ xs) ys s = ground (arith, contains-append xs ys s)

-- No argument is the text.
abbrev pub IsNewIn : ArgList → Text → Type 0
IsNewIn xs s = All (λ x. s ≢ x) xs

-- No argument stands twice.
abbrev pub IsDistinct : ArgList → Type 0
IsDistinct [] = Unit {0}
IsDistinct (x ∷ xs) = IsNewIn xs x × IsDistinct xs

-- The search finds an argument exactly when it is there.
pub contains-IsNewIn : (xs : ArgList) (s : Text) → contains xs s ≡ false → IsNewIn xs s
unfolding contains
contains-IsNewIn [] s h = tt
contains-IsNewIn (x ∷ xs) s h = (
  λ e. absurd (ground (arith, (str_eq_iff s x).1 e, h)),
  contains-IsNewIn xs s (ground (arith, h)),
)

IsNewIn-contains : (xs : ArgList) (s : Text) → IsNewIn xs s → contains xs s ≡ false
unfolding contains
IsNewIn-contains [] s h = refl
IsNewIn-contains (x ∷ xs) s h = elim (Bool-cases (str_eq s x)) [
  | inl e ↦ absurd (h.0 ((str_eq_iff s x).0 e))
  | inr e ↦ rw e (IsNewIn-contains xs s h.1)
]

IsNewIn-snoc : (xs : ArgList) (s t : Text) → IsNewIn xs s → s ≢ t → IsNewIn (xs ++ t ∷ []) s
IsNewIn-snoc xs s t h n = All-append (λ x. s ≢ x) xs (t ∷ []) h (n, tt)

pub IsDistinct-snoc :
    (xs : ArgList) (s : Text) → IsDistinct xs → contains xs s ≡ false → IsDistinct (xs ++ s ∷ [])
unfolding contains
IsDistinct-snoc [] s d n = (tt, tt)
IsDistinct-snoc (x ∷ xs) s d n =
    let new = contains-IsNewIn (x ∷ xs) s n in
    (IsNewIn-snoc xs x s d.0 (λ e. new.0 (sym e)), IsDistinct-snoc xs s d.1 (ground (arith, n)))

pub add_arg-IsDistinct : (xs : ArgList) (s : Text) → IsDistinct xs → IsDistinct (add_arg xs s)
unfolding add_arg
add_arg-IsDistinct xs s d = elim (Bool-cases (contains xs s)) [
  | inl e ↦ rw e d
  | inr e ↦ rw e (IsDistinct-snoc xs s d e)
]

-- Inserting any arguments leaves no argument twice, if none was.
pub add_args-IsDistinct :
    (strs : List Text) (xs : ArgList) → IsDistinct xs → IsDistinct (add_args xs strs)
unfolding add_args
add_args-IsDistinct [] xs d = d
add_args-IsDistinct (s ∷ strs) xs d =
    add_args-IsDistinct strs (add_arg xs s) (add_arg-IsDistinct xs s d)

pub contains-add_arg :
    (xs : ArgList) (s t : Text) → contains (add_arg xs s) t ≡ (contains xs t || str_eq t s)
unfolding add_arg contains
contains-add_arg xs s t =
    ground (arith, contains-append xs (s ∷ []) t, str_eq_iff t s, ap (contains xs))

-- After an insertion the arguments are those that were there and those that were inserted.
pub contains-add_args :
    (strs : List Text) (xs : ArgList) (t : Text)
    → contains (add_args xs strs) t ≡ (contains xs t || contains strs t)
unfolding add_args contains
contains-add_args [] xs t = ground arith
contains-add_args (s ∷ strs) xs t =
    ground (arith, contains-add_args strs (add_arg xs s) t, contains-add_arg xs s t)

after_append : (P : Text → Type 0) (xs ys : List Text) → All P (xs ++ ys) → All P ys
after_append P [] ys h = h
after_append P (x ∷ xs) ys h = after_append P xs ys h.1

IsDistinct-middle :
    (xs : ArgList) (s : Text) (ys : ArgList) → IsDistinct (xs ++ s ∷ ys) → contains xs s ≡ false
unfolding contains
IsDistinct-middle [] s ys d = refl
IsDistinct-middle (x ∷ xs) s ys d = elim (Bool-cases (str_eq s x)) [
  | inl e ↦ absurd ((after_append (λ y. x ≢ y) xs (s ∷ ys) d.0).0 (sym ((str_eq_iff s x).0 e)))
  | inr e ↦ rw e (IsDistinct-middle xs s ys d.1)
]

-- Arguments that are new and differ from one another are appended in order.
pub add_args_new :
    (strs : List Text) (xs : ArgList) → IsDistinct (xs ++ strs) → add_args xs strs ≡ xs ++ strs
unfolding add_args add_arg
add_args_new [] xs d = rw append-nil
add_args_new (s ∷ strs) xs d =
    rw (foldl, add_arg, IsDistinct-middle xs s strs d)
      (add_args_new strs (xs ++ s ∷ []) (rw append_assoc d) ∙ append_assoc xs (s ∷ []) strs)

pub add_args-append :
    (xs : ArgList) (ys zs : List Text) → add_args (add_args xs ys) zs ≡ add_args xs (ys ++ zs)
unfolding add_args
add_args-append xs ys zs = sym (foldl-append add_arg xs ys zs)

still_new :
    (ys xs : ArgList) (y : Text)
    → IsNewIn ys y
    → All (λ z. contains xs z ≡ false) ys
    → All (λ z. contains (xs ++ y ∷ []) z ≡ false) ys
still_new [] xs y e n = tt
still_new (z ∷ ys) xs y e n = (
  IsNewIn-contains (xs ++ y ∷ []) z
      (IsNewIn-snoc xs z y (contains-IsNewIn xs z n.0) (λ q. e.0 (sym q))),
  still_new ys xs y e.1 n.1,
)

-- Distinct arguments behind distinct ones, none of which is among them.
pub IsDistinct-append :
    (ys xs : ArgList)
    → IsDistinct xs
    → IsDistinct ys
    → All (λ y. contains xs y ≡ false) ys
    → IsDistinct (xs ++ ys)
unfolding contains
IsDistinct-append [] xs d e n = rw append-nil d
IsDistinct-append (y ∷ ys) xs d e n = rw (sym (append_assoc xs (y ∷ []) ys)) (
    IsDistinct-append ys (xs ++ y ∷ []) (IsDistinct-snoc xs y d n.0) e.1
      (still_new ys xs y e.0 n.1))

-- Words, each followed by a space and fewer than 1024 bytes in all, are inserted one by one.
pub insert_spacedelim-spaced :
    (beyond : Text) (args : ArgList) (ws : List Text)
    → All (IsWord blanks) ws
    → length (spaced b' ' ws) < 1024
    → insert_spacedelim beyond args (spaced b' ' ws) ≡ add_args args ws
unfolding insert_spacedelim line_buffer has_byte
insert_spacedelim-spaced beyond args ws k h =
    rw (lt→ltb (length (spaced b' ' ws)) 1024 h)
      (ap (add_args args) (tokens-spaced blanks b' ' ws refl k))

add_arg-All : (P : Text → Type 0) (xs : ArgList) (s : Text) → All P xs → P s → All P (add_arg xs s)
unfolding add_arg
add_arg-All P xs s h p = elim (Bool-cases (contains xs s)) [
  | inl e ↦ rw e h
  | inr e ↦ rw e (All-append P xs (s ∷ []) h (p, tt))
]

add_args-All :
    (P : Text → Type 0) (xs : ArgList) (strs : List Text)
    → All P xs
    → All P strs
    → All P (add_args xs strs)
unfolding add_args
add_args-All P xs [] h k = h
add_args-All P xs (s ∷ strs) h k = add_args-All P (add_arg xs s) strs (add_arg-All P xs s h k.0) k.1

-- Whatever the text is, also where it runs over the buffer, each argument that is inserted is a word:
-- if every argument was one, then every argument is.
pub insert_spacedelim-IsWord :
    (beyond : Text) (args : ArgList) (s : Text)
    → All (IsWord blanks) args
    → All (IsWord blanks) (insert_spacedelim beyond args s)
unfolding insert_spacedelim
insert_spacedelim-IsWord beyond args s h =
    add_args-All (IsWord blanks) args (tokens blanks (line_buffer beyond s)) h
      (tokens-IsWord blanks (line_buffer beyond s))
