-- ===== src/Errdefer/Signature/Laws.antt =====
-- The parameter list ends at the parenthesis that closes it, whatever is nested in it and behind it.
use rpmz.Base.{
  ℕ, suc, ◌≡◌, refl, ap, ◌∙◌, ◌≢◌, false, some, [], ◌∷◌, ◌++◌, append_assoc, arith, Text, is_space,
  rstrip, strip,
}
use rpmz.Base.Balanced.{IsBalanced, nil, plain, group}
use rpmz.Errdefer.Signature.{search_fn, after_close, drop_last, return_type_after_params}

after_close-plain :
    (d c : ℕ) (s : Text) → c ≢ b'(' → c ≢ b')' → after_close d (c ∷ s) ≡ after_close d s
unfolding after_close
after_close-plain d c s h k = ground arith

after_close-deeper :
    (d : ℕ) (s : Text) → after_close (suc (suc d)) (b')' ∷ s) ≡ after_close (suc d) s
unfolding after_close
after_close-deeper d s = ground arith

after_close-IsBalanced :
    (d : ℕ) {s : Text} (rest : Text)
    → IsBalanced s
    → after_close (suc d) (s ++ rest) ≡ after_close (suc d) rest
after_close-IsBalanced d rest nil = refl
after_close-IsBalanced d rest (plain {c} {s} h k b) =
    after_close-plain (suc d) c (s ++ rest) h k ∙ after_close-IsBalanced d rest b
after_close-IsBalanced d rest (group {inner} {more} b g e) = rw e (
    rw append_assoc (
      step_in
      ∙ (after_close-IsBalanced (suc d) (b')' ∷ (more ++ rest)) b
          ∙ (after_close-deeper d (more ++ rest) ∙ after_close-IsBalanced d rest g))))
  where
    step_in :
        after_close (suc d) (b'(' ∷ (inner ++ (b')' ∷ (more ++ rest))))
        ≡ after_close (suc (suc d)) (inner ++ (b')' ∷ (more ++ rest)))
    step_in = unfold after_close in refl

pub rstrip-concat : (s : Text) (c : ℕ) → is_space c ≡ false → rstrip (s ++ (c ∷ [])) ≡ s ++ (c ∷ [])
unfolding rstrip
rstrip-concat [] c h = rw h
rstrip-concat (x ∷ []) c h = rw (rstrip-concat [] c h, rstrip)
rstrip-concat (x ∷ y ∷ s) c h = rw (rstrip-concat (y ∷ s) c h, rstrip)

drop_last-concat : (s : Text) (c : ℕ) → drop_last (s ++ (c ∷ [])) ≡ s
unfolding drop_last
drop_last-concat [] c = refl
drop_last-concat (x ∷ []) c = refl
drop_last-concat (x ∷ y ∷ s) c = ap (◌∷◌ x) (drop_last-concat (y ∷ s) c)

-- If the parameters behind the parenthesis of the first `fn name(` are balanced text, then the
-- return type is what stands between the parenthesis that closes them and the brace of the body,
-- with its outer blanks removed; further parentheses in it do not matter.
pub return_type-after-params :
    (signature params result : Text)
    → search_fn signature ≡ some (params ++ (b')' ∷ (result ++ (b'{' ∷ []))))
    → IsBalanced params
    → return_type_after_params signature ≡ strip result
unfolding return_type_after_params
return_type-after-params signature params result h b =
    rw (h, return_type_after_params)
      (rw (after_close-IsBalanced 0 (b')' ∷ (result ++ (b'{' ∷ []))) b, return_type_after_params)
        (ap (λ t. strip (drop_last t)) (rstrip-concat result b'{' refl)
          ∙ ap strip (drop_last-concat result b'{')))
