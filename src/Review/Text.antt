-- ===== src/Review/Text.antt =====
-- Texts of whole lines: taken apart by `lines` and put together by `join`.
use cuartel.Common.{
  ℕ, ◌≡◌, refl, sym, ap, ◌∙◌, ◌⊎◌, inl, inr, true, false, ◌||◌, List, [], ◌∷◌, ◌++◌, map, ◌==◌,
  arith, Bool-cases, All, subst,
}
use cuartel.Review.Defs.{
  Text, add_char, pieces, strip_cr, line_of, lines, join, ends_with_newline, is_empty, finish,
}
use cuartel.Review.Mix.{append_assoc}

-- A newline behind every line.
abbrev pub text_of : List Text → Text
text_of [] = []
text_of (l ∷ ls) = l ++ 10 ∷ text_of ls

-- No newline inside, and no carriage return at the end.
abbrev pub Clean : Text → Type 0
Clean l = All (λ c. (c == 10) ≡ false) l × (strip_cr l ≡ l)

pieces-line :
    (l t : Text) → All (λ c. (c == 10) ≡ false) l → pieces (l ++ 10 ∷ t) ≡ (l, true) ∷ pieces t
unfolding pieces
pieces-line [] t h = refl
pieces-line (c ∷ l) t (h, hs) = rw (h, pieces) (ap (add_char c) (pieces-line l t hs))

-- The lines of a text of clean lines are those.
pub lines-text_of : (ls : List Text) → All Clean ls → lines (text_of ls) ≡ ls
unfolding lines pieces
lines-text_of [] h = refl
lines-text_of (l ∷ ls) ((h, s), hs) =
    ap (map line_of) (pieces-line l (text_of ls) h)
    ∙ ap (λ m. m ∷ lines (text_of ls)) s
    ∙ ap (λ r. l ∷ r) (lines-text_of ls hs)

-- A carriage return and a newline behind every line.
abbrev pub crlf_text_of : List Text → Text
crlf_text_of [] = []
crlf_text_of (l ∷ ls) = l ++ 13 ∷ 10 ∷ crlf_text_of ls

pieces-crlf :
    (l t : Text)
    → All (λ c. (c == 10) ≡ false) l
    → pieces (l ++ 13 ∷ 10 ∷ t) ≡ (l ++ 13 ∷ [], true) ∷ pieces t
unfolding pieces
pieces-crlf [] t h = refl
pieces-crlf (c ∷ l) t (h, hs) = rw (h, pieces) (ap (add_char c) (pieces-crlf l t hs))

strip_cr-append : (l : Text) → strip_cr (l ++ 13 ∷ []) ≡ l
unfolding strip_cr
strip_cr-append [] = refl
strip_cr-append (c ∷ []) = refl
strip_cr-append (c ∷ (d ∷ l)) = ap (λ r. c ∷ r) (strip_cr-append (d ∷ l))

-- Both line endings give the same lines.
pub lines-crlf_text_of : (ls : List Text) → All Clean ls → lines (crlf_text_of ls) ≡ ls
unfolding lines pieces
lines-crlf_text_of [] h = refl
lines-crlf_text_of (l ∷ ls) ((h, s), hs) =
    ap (map line_of) (pieces-crlf l (crlf_text_of ls) h)
    ∙ ap (λ m. m ∷ lines (crlf_text_of ls)) (strip_cr-append l)
    ∙ ap (λ r. l ∷ r) (lines-crlf_text_of ls hs)

-- `join` leaves the newline of the last line out.
join-last : (ls : List Text) (l : Text) → join (ls ++ l ∷ []) ≡ text_of ls ++ l
unfolding join
join-last [] l = refl
join-last (m ∷ []) l = sym (append_assoc m (10 ∷ []) l)
join-last (m ∷ (n ∷ ls)) l =
    ap (λ t. m ++ 10 ∷ t) (join-last (n ∷ ls) l) ∙ sym (append_assoc m (10 ∷ text_of (n ∷ ls)) l)

text_of-last : (ls : List Text) (l : Text) → text_of (ls ++ l ∷ []) ≡ text_of ls ++ (l ++ 10 ∷ [])
text_of-last [] l = refl
text_of-last (m ∷ ls) l =
    ap (λ t. m ++ 10 ∷ t) (text_of-last ls l)
    ∙ sym (append_assoc m (10 ∷ text_of ls) (l ++ 10 ∷ []))

ends_with_newline-append :
    (a b : Text) (c : ℕ) → ends_with_newline (a ++ (c ∷ b)) ≡ ends_with_newline (c ∷ b)
unfolding ends_with_newline
ends_with_newline-append [] b c = refl
ends_with_newline-append (x ∷ []) b c = refl
ends_with_newline-append (x ∷ (y ∷ a)) b c = ends_with_newline-append (y ∷ a) b c

ends_with_newline-cons :
    (c : ℕ) (t : Text) → ends_with_newline t ≡ true → ends_with_newline (c ∷ t) ≡ true
unfolding ends_with_newline
ends_with_newline-cons c [] h = absurd (ground arith)
ends_with_newline-cons c (d ∷ t) h = h

text_of-ends : (l : Text) (ls : List Text) → ends_with_newline (text_of (l ∷ ls)) ≡ true
unfolding ends_with_newline
text_of-ends l [] = ends_with_newline-append l [] 10
text_of-ends l (m ∷ ls) =
    ends_with_newline-append l (text_of (m ∷ ls)) 10
    ∙ ends_with_newline-cons 10 (text_of (m ∷ ls)) (text_of-ends m ls)

pub text_of-whole :
    (ls : List Text) → (is_empty (text_of ls) || ends_with_newline (text_of ls)) ≡ true
text_of-whole [] = refl
text_of-whole (l ∷ ls) = elim (Bool-cases (is_empty (text_of (l ∷ ls)))) [
  | inl e ↦ rw e refl
  | inr e ↦ rw e (text_of-ends l ls)
]

crlf_text_of-ends : (l : Text) (ls : List Text) → ends_with_newline (crlf_text_of (l ∷ ls)) ≡ true
unfolding ends_with_newline
crlf_text_of-ends l [] = ends_with_newline-append l (10 ∷ []) 13
crlf_text_of-ends l (m ∷ ls) =
    ends_with_newline-append l (10 ∷ crlf_text_of (m ∷ ls)) 13
    ∙ ends_with_newline-cons 10 (crlf_text_of (m ∷ ls)) (crlf_text_of-ends m ls)

pub crlf_text_of-whole :
    (ls : List Text) → (is_empty (crlf_text_of ls) || ends_with_newline (crlf_text_of ls)) ≡ true
crlf_text_of-whole [] = refl
crlf_text_of-whole (l ∷ ls) = elim (Bool-cases (is_empty (crlf_text_of (l ∷ ls)))) [
  | inl e ↦ rw e refl
  | inr e ↦ rw e (crlf_text_of-ends l ls)
]

-- A line without newline that is not empty ends no text with a newline.
no_newline :
    (a : Text) (c : ℕ) (l : Text)
    → All (λ c. (c == 10) ≡ false) (c ∷ l)
    → ends_with_newline (a ++ (c ∷ l)) ≡ false
unfolding ends_with_newline
no_newline a c l h = ends_with_newline-append a l c ∙ go c l h
  where
    go :
        (c : ℕ) (l : Text)
        → All (λ c. (c == 10) ≡ false) (c ∷ l)
        → ends_with_newline (c ∷ l) ≡ false
    go c [] h = h.0
    go c (d ∷ l) h = go d l h.1

not_empty : (a : Text) (c : ℕ) (l : Text) → is_empty (a ++ (c ∷ l)) ≡ false
not_empty [] c l = refl
not_empty (x ∷ a) c l = refl

-- The last line is not empty.
abbrev pub EndsFilled : List Text → Type 0
EndsFilled [] = Unit
EndsFilled (l ∷ []) = is_empty l ≡ false
EndsFilled (l ∷ (m ∷ ls)) = EndsFilled (m ∷ ls)

finish-filled :
    (original : Text) (ls : List Text) (c : ℕ) (l : Text)
    → (is_empty original || ends_with_newline original) ≡ true
    → All (λ c. (c == 10) ≡ false) (c ∷ l)
    → finish original (join (ls ++ (c ∷ l) ∷ [])) ≡ text_of (ls ++ (c ∷ l) ∷ [])
unfolding finish
finish-filled original ls c l w h =
    ap (finish original) (join-last ls (c ∷ l))
    ∙ rw (not_empty (text_of ls) c l, no_newline (text_of ls) c l h, w, finish)
        (append_assoc (text_of ls) (c ∷ l) (10 ∷ []) ∙ sym (text_of-last ls (c ∷ l)))

append-nil {ℓ} : {A : Type ℓ} (xs : List A) → xs ++ [] ≡ xs
append-nil [] = refl
append-nil (x ∷ xs) = ap (λ r. x ∷ r) (append-nil xs)

-- An empty last line is lost.
pub finish-blank :
    (original : Text) (ls : List Text) → finish original (join (ls ++ [] ∷ [])) ≡ text_of ls
unfolding finish join
finish-blank original [] = refl
finish-blank original (l ∷ ls) =
    ap (finish original) (join-last (l ∷ ls) [] ∙ append-nil (text_of (l ∷ ls)))
    ∙ elim (Bool-cases (is_empty (text_of (l ∷ ls)))) [
      | inl e ↦ rw (e, finish) refl
      | inr e ↦ rw (e, text_of-ends l ls, finish) refl
    ]

last-cases {ℓ} :
    {A : Type ℓ} (ls : List A) → (ls ≡ []) ⊎ ((ms : List A) × (l : A) × (ls ≡ ms ++ l ∷ []))
last-cases [] = inl refl
last-cases (x ∷ xs) = elim (last-cases xs) [
  | inl e ↦ inr ([], x, ap (λ r. x ∷ r) e)
  | inr (ms, l, e) ↦ inr (x ∷ ms, l, ap (λ r. x ∷ r) e)
]

EndsFilled-last : (ms : List Text) (l : Text) → EndsFilled (ms ++ l ∷ []) → is_empty l ≡ false
EndsFilled-last [] l h = h
EndsFilled-last (m ∷ []) l h = h
EndsFilled-last (m ∷ (n ∷ ms)) l h = EndsFilled-last (n ∷ ms) l h

All-last {ℓ κ} : {A : Type ℓ} (P : A → Type κ) (ms : List A) (l : A) → All P (ms ++ l ∷ []) → P l
All-last P [] l h = h.0
All-last P (m ∷ ms) l h = All-last P ms l h.1

-- What `apply_hunks` makes of lines of which the last is not empty.
pub finish-text_of :
    (original : Text) (ls : List Text)
    → (is_empty original || ends_with_newline original) ≡ true
    → All Clean ls
    → EndsFilled ls
    → finish original (join ls) ≡ text_of ls
unfolding finish join
finish-text_of original ls w h f = elim (last-cases ls) [
  | inl e ↦ rw e refl
  | inr (ms, l, e) ↦
      let filled : is_empty l ≡ false = EndsFilled-last ms l (subst EndsFilled e f) in
      let clean : Clean l = All-last Clean ms l (subst (All Clean) e h) in
      rw e (go ms l filled clean)
]
  where
    go :
        (ms : List Text) (l : Text)
        → is_empty l ≡ false
        → Clean l
        → finish original (join (ms ++ l ∷ [])) ≡ text_of (ms ++ l ∷ [])
    go ms [] filled clean = absurd (ground arith)
    go ms (c ∷ l) filled clean = finish-filled original ms c l w clean.0
