-- ===== src/Errdefer/Strip/Tokens.antt =====
-- An independent description of a line of Zig: characters of code, closed literals, and an end
-- that is a comment, a multi-line string or an unterminated literal.
use rpmz.Base.{
  ℕ, ◌≡◌, refl, ap, ◌∙◌, subst, ◌≢◌, ◌⊎◌, inl, inr, Bool, true, false, List, [], ◌∷◌, arith, ◌==◌,
  if◌then◌else◌, Bool-cases, All, Text,
}
use rpmz.Errdefer.Strip.{stops, quotes, copies, step, starts_pair, strip_noise, skip_literal}
use rpmz.Errdefer.Strip.Laws.{Step-cases, skip_literal-close}

-- One item of a literal's body.
pub data Element : Type 0 where
  char : ℕ → Element
  escape : ℕ → Element

pub data Line : Type 0 where
  end : Line
  comment : Text → Line
  multiline : Text → Line
  code_char : ℕ → Line → Line
  literal : ℕ → List Element → Line → Line
  unterminated : ℕ → List Element → Bool → Line

unfoldable pub render_body : List Element → Text → Text
render_body [] rest = rest
render_body (char c ∷ es) rest = c ∷ render_body es rest
render_body (escape c ∷ es) rest = b'\\' ∷ c ∷ render_body es rest

-- The text of a line. The flag of an unterminated literal is a backslash at the very end.
unfoldable pub render : Line → Text
unfolding render_body
render end = []
render (comment t) = b'/' ∷ b'/' ∷ t
render (multiline t) = b'\\' ∷ b'\\' ∷ t
render (code_char c l) = c ∷ render l
render (literal q es l) = q ∷ render_body es (q ∷ render l)
render (unterminated q es dangling) = q ∷ render_body es (if dangling then b'\\' ∷ [] else [])

-- The line without its comment, each literal an empty pair of quotes.
unfoldable pub skeleton : Line → Text
skeleton end = []
skeleton (comment t) = []
skeleton (multiline t) = []
skeleton (code_char c l) = c ∷ skeleton l
skeleton (literal q es l) = q ∷ q ∷ skeleton l
skeleton (unterminated q es dangling) = q ∷ q ∷ []

abbrev pub IsQuote : ℕ → Type 0
IsQuote q = (q ≡ b'"') ⊎ (q ≡ b'\'')

abbrev pub IsElement : ℕ → Element → Type 0
IsElement q (char c) = (c ≢ q) × (c ≢ b'\\')
IsElement q (escape c) = Unit

-- Code characters are no quotes, and two of them make no `//` or `\\`.
abbrev pub IsLine : Line → Type 0
IsLine end = Unit
IsLine (comment t) = Unit
IsLine (multiline t) = Unit
IsLine (code_char c l) =
    (¬ IsQuote c)
    × (starts_pair b'/' c (render l) ≡ false)
    × (starts_pair b'\\' c (render l) ≡ false)
    × IsLine l
IsLine (literal q es l) = IsQuote q × All (IsElement q) es × IsLine l
IsLine (unterminated q es dangling) = IsQuote q × All (IsElement q) es

skip_literal-char :
    (q c : ℕ) (s : Text) → c ≢ q → c ≢ b'\\' → skip_literal q (c ∷ s) ≡ skip_literal q s
unfolding skip_literal
skip_literal-char q c [] h k = refl
skip_literal-char q c (d ∷ s) h k = ground arith

skip_literal-escape : (q c : ℕ) (s : Text) → skip_literal q (b'\\' ∷ c ∷ s) ≡ skip_literal q s
unfolding skip_literal
skip_literal-escape q c s = refl

skip_literal-body :
    (q : ℕ) (es : List Element) (rest : Text)
    → All (IsElement q) es
    → skip_literal q (render_body es rest) ≡ skip_literal q rest
unfolding render_body
skip_literal-body q [] rest h = refl
skip_literal-body q (char c ∷ es) rest h =
    skip_literal-char q c _ h.0.0 h.0.1 ∙ skip_literal-body q es rest h.1
skip_literal-body q (escape c ∷ es) rest h =
    skip_literal-escape q c _ ∙ skip_literal-body q es rest h.1

IsQuote-ne_backslash : (q : ℕ) → IsQuote q → (q == b'\\') ≡ false
IsQuote-ne_backslash q h = ground arith

IsQuote-step : (q : ℕ) (s : Text) → IsQuote q → step q s ≡ quotes
unfolding step
IsQuote-step q [] h = ground arith
IsQuote-step q (d ∷ s) h = ground arith

plain-step :
    (c : ℕ) (s : Text)
    → ¬ IsQuote c
    → starts_pair b'/' c s ≡ false
    → starts_pair b'\\' c s ≡ false
    → step c s ≡ copies
unfolding step
plain-step c [] h k m =
    ground (arith, (λ (e : c ≡ b'"'). h (inl e)), (λ (e : c ≡ b'\''). h (inr e)))
plain-step c (d ∷ s) h k m =
    ground (arith, (λ (e : c ≡ b'"'). h (inl e)), (λ (e : c ≡ b'\''). h (inr e)))

-- On every line of that shape `strip_noise` gives the skeleton: it drops the comment and what the
-- literals hold, and nothing else.
pub strip_noise-render : (l : Line) → IsLine l → strip_noise (render l) ≡ skeleton l
unfolding render skeleton strip_noise
strip_noise-render end h = refl
strip_noise-render (comment t) h = unfold step in refl
strip_noise-render (multiline t) h = unfold step in refl
strip_noise-render (code_char c l) h =
    rw (plain-step c (render l) h.0 h.1 h.2, strip_noise) (ap (◌∷◌ c) (strip_noise-render l h.3))
strip_noise-render (literal q es l) h =
    rw (IsQuote-step q (render_body es (q ∷ render l)) h.0, strip_noise)
      (ap (λ r. q ∷ q ∷ r)
        (skip_literal-body q es (q ∷ render l) h.1
          ∙ (skip_literal-close q (render l) (IsQuote-ne_backslash q h.0)
              ∙ strip_noise-render l h.2)))
strip_noise-render (unterminated q es true) h =
    rw (IsQuote-step q (render_body es (b'\\' ∷ [])) h.0, strip_noise)
      (ap (λ r. q ∷ q ∷ r) (skip_literal-body q es (b'\\' ∷ []) h.1 ∙ refl))
strip_noise-render (unterminated q es false) h =
    rw (IsQuote-step q (render_body es []) h.0, strip_noise)
      (ap (λ r. q ∷ q ∷ r) (skip_literal-body q es [] h.1 ∙ refl))

-- The literal opened by `q` before the text: closed, with the rest of the line behind it, or not.
abbrev BodyOf : ℕ → Text → Type 0
BodyOf q s =
    ((es : List Element) × (l : Line) × All (IsElement q) es
      × IsLine l
      × (render_body es (q ∷ render l) ≡ s))
    ⊎ ((es : List Element) × (dangling : Bool) × All (IsElement q) es
        × (render_body es (if dangling then b'\\' ∷ [] else []) ≡ s))

BodyOf-char : (q c : ℕ) (s : Text) → c ≢ q → c ≢ b'\\' → BodyOf q s → BodyOf q (c ∷ s)
unfolding render_body
BodyOf-char q c s h k (inl (es, l, w, v, e)) = inl (char c ∷ es, l, ((h, k), w), v, ap (◌∷◌ c) e)
BodyOf-char q c s h k (inr (es, d, w, e)) = inr (char c ∷ es, d, ((h, k), w), ap (◌∷◌ c) e)

BodyOf-escape : (q c : ℕ) (s : Text) → BodyOf q s → BodyOf q (b'\\' ∷ c ∷ s)
unfolding render_body
BodyOf-escape q c s (inl (es, l, w, v, e)) =
    inl (escape c ∷ es, l, (tt, w), v, ap (λ r. b'\\' ∷ c ∷ r) e)
BodyOf-escape q c s (inr (es, d, w, e)) = inr (escape c ∷ es, d, (tt, w), ap (λ r. b'\\' ∷ c ∷ r) e)

abbrev LineOf : Text → Type 0
LineOf s = (l : Line) × IsLine l × (render l ≡ s)

LineOf-body : (q : ℕ) (s : Text) → IsQuote q → BodyOf q s → LineOf (q ∷ s)
unfolding render
LineOf-body q s h (inl (es, l, w, v, e)) = (literal q es l, (h, w, v), ap (◌∷◌ q) e)
LineOf-body q s h (inr (es, d, w, e)) = (unterminated q es d, (h, w), ap (◌∷◌ q) e)

step-eq-copies :
    (c : ℕ) (s : Text)
    → step c s ≡ copies
    → (¬ IsQuote c) × (starts_pair b'/' c s ≡ false) × (starts_pair b'\\' c s ≡ false)
unfolding step
step-eq-copies c [] h = (λ q. ground arith, ground arith, ground arith)
step-eq-copies c (d ∷ s) h = (λ q. ground arith, ground arith, ground arith)

step-eq-quotes : (c : ℕ) (s : Text) → step c s ≡ quotes → IsQuote c
unfolding step
step-eq-quotes c [] h = ground arith
step-eq-quotes c (d ∷ s) h = ground arith

LineOf-stops : (c : ℕ) (s : Text) → step c s ≡ stops → LineOf (c ∷ s)
unfolding step render
LineOf-stops c [] h = ground arith
LineOf-stops c (d ∷ s) h = elim (Bool-cases (c == b'/')) [
  | inl e ↦ (comment s, tt, ground arith)
  | inr e ↦ (multiline s, tt, ground arith)
]

LineOf-copies : (c : ℕ) (s : Text) → step c s ≡ copies → LineOf s → LineOf (c ∷ s)
unfolding render
LineOf-copies c s h (l, w, e) =
    let (a, b, d) = step-eq-copies c s h in (code_char c l, (a, rw e b, rw e d, w), ap (◌∷◌ c) e)

mutual
  unfolding render

  line_of : (s : Text) → LineOf s
  line_of [] = (end, tt, refl)
  line_of (c ∷ s) = elim (Step-cases (step c s)) [
    | inl e ↦ LineOf-stops c s e
    | inr (inl e) ↦ LineOf-body c s (step-eq-quotes c s e) (body_of c s)
    | inr (inr e) ↦ LineOf-copies c s e (line_of s)
  ]

  body_of : (q : ℕ) (s : Text) → BodyOf q s
  body_of q [] = inr ([], false, tt, refl)
  body_of q (c ∷ []) = elim (Bool-cases (c == b'\\')) [
    | inl e ↦ inr ([], true, tt, ground arith)
    | inr e ↦ elim (Bool-cases (c == q)) [
      | inl f ↦ inl ([], end, tt, tt, ground arith)
      | inr f ↦ BodyOf-char q c [] (ground arith) (ground arith) (body_of q [])
    ]
  ]
  body_of q (c ∷ d ∷ s) = elim (Bool-cases (c == b'\\')) [
    | inl e ↦ subst (λ b. BodyOf q (b ∷ d ∷ s)) (ground arith) (BodyOf-escape q d s (body_of q s))
    | inr e ↦ elim (Bool-cases (c == q)) [
      | inl f ↦ closed (ground arith) (line_of (d ∷ s))
      | inr f ↦ BodyOf-char q c (d ∷ s) (ground arith) (ground arith) (body_of q (d ∷ s))
    ]
  ]
    where
      closed : q ≡ c → LineOf (d ∷ s) → BodyOf q (c ∷ d ∷ s)
      closed f (l, w, e) = inl ([], l, tt, w, cc)

-- Every text is a line of that shape, so the skeleton is the result on every line.
pub strip_noise-skeleton :
    (line : Text) → (l : Line) × IsLine l × (render l ≡ line) × (strip_noise line ≡ skeleton l)
strip_noise-skeleton line =
    let (l, w, e) = line_of line in
    (l, w, e, subst (λ t. strip_noise t ≡ skeleton l) e (strip_noise-render l w))
