-- ===== src/Strings/Tests.antt =====
-- Runs of the string functions on literals.
use sentinel_mail_gateway.Prelude.{◌≡◌, refl, [], ◌∷◌}
use sentinel_mail_gateway.Strings.{lower, trim_space, fields, join}

test_lower : lower "HeLLo ÀЖ" ≡ "hello àж"
unfolding lower
test_lower = refl

test_trim : trim_space "  a b \t" ≡ "a b"
unfolding trim_space
test_trim = refl

test_fields : fields " a  bc d " ≡ "a" ∷ "bc" ∷ "d" ∷ []
unfolding fields
test_fields = refl

test_join : join ", " (fields "a b c") ≡ "a, b, c"
unfolding fields join
test_join = refl
