-- ===== src/Errdefer/Tests.antt =====
-- Runs of the audit on small inputs.
use rpmz.Base.{◌≡◌, refl, inr, [], ◌∷◌, map, arith, Text, codes, strip, split, raise}
use rpmz.Errdefer.Strip.{strip_noise, step, starts_pair}
use rpmz.Errdefer.Signature.{return_type_after_params, progress, unfinished, search_fn}
use rpmz.Errdefer.Scan.{scan, unmatched, unclosed}
use rpmz.Errdefer.Scan.Balance.{failure, verdict, scan-verdict}
use rpmz.Errdefer.Strip.Laws.{strip_noise_idem}
use rpmz.Errdefer.Strip.Tokens.{
  code_char, literal, comment, escape, render, strip_noise-render, Line, IsLine, skeleton,
  strip_noise-skeleton,
}
use rpmz.Errdefer.Signature.Laws.{return_type-after-params}
use rpmz.Base.Balanced.{IsBalanced, nil, plain, group}

strip_comment : strip_noise (codes "a(\"x//y\"); // {") ≡ codes "a(\"\"); "
unfolding strip_noise step
strip_comment = refl

strip_escape : strip_noise (codes "'\\'' + \"a\\\"}\" }") ≡ codes "'' + \"\" }"
unfolding strip_noise step
strip_escape = refl

return_type_nested :
    return_type_after_params (codes "pub fn f(a: fn (u8) void, b: u8) !std.json.Parsed(Value) {")
    ≡ codes "!std.json.Parsed(Value)"
unfolding return_type_after_params
return_type_nested = refl

container_goes_on : progress (codes "fn f() struct {") ≡ unfinished
unfolding progress
container_goes_on = refl

abbrev sample : Text
sample =
    codes
      "fn bad(\n    x: u8,\n) u32 {\n    errdefer free(x); // }\n    return 1;\n}\nfn good() !void { errdefer x(); }\n"

abbrev dead_line : Text
dead_line = codes "errdefer free(x); // }"

scan-desync :
    (scan (codes "}\n") ≡ raise (unmatched 1))
    × (scan (codes "fn f() u8 {\n{") ≡ raise (unclosed 2))
unfolding scan
scan-desync = (refl, refl)

abbrev nested : Text
nested = codes "fn f(a: fn (u8) void) ?T {"

strip_noise-render_example : strip_noise (codes "a'\\''//b") ≡ codes "a''"
unfolding render skeleton
strip_noise-render_example =
    strip_noise-render (code_char b'a' (literal b'\'' (escape b'\'' ∷ []) (comment (codes "b"))))
      (unfold starts_pair in ((λ h. ground arith), refl, refl, (inr refl, (tt, tt), tt)))

return_type-after-params_example : return_type_after_params nested ≡ strip (codes " ?T ")
return_type-after-params_example =
    return_type-after-params nested (codes "a: fn (u8) void") (codes " ?T ")
      (unfold search_fn in refl) balanced
  where
    balanced : IsBalanced (codes "a: fn (u8) void")
    balanced = plain (omega arith) (omega arith) (
        plain (omega arith) (omega arith) (
          plain (omega arith) (omega arith) (
            plain (omega arith) (omega arith) (
              plain (omega arith) (omega arith) (
                plain (omega arith) (omega arith) (
                  group (plain (omega arith) (omega arith) (plain (omega arith) (omega arith) nil))
                    (plain (omega arith) (omega arith) (
                      plain (omega arith) (omega arith) (
                        plain (omega arith) (omega arith) (
                          plain (omega arith) (omega arith)
                            (plain (omega arith) (omega arith) nil)))))
                    refl))))))

strip_noise_idem_example : strip_noise (strip_noise dead_line) ≡ strip_noise dead_line
strip_noise_idem_example = strip_noise_idem dead_line

strip_noise-skeleton_example :
    (l : Line) × IsLine l × (render l ≡ dead_line) × (strip_noise dead_line ≡ skeleton l)
strip_noise-skeleton_example = strip_noise-skeleton dead_line

scan-verdict_example :
    failure (scan (codes "}\n")) ≡ verdict 0 (map strip_noise (split b'\n' (codes "}\n"))) 0
scan-verdict_example = scan-verdict (codes "}\n")
