-- ===== src/Money/Tests.antt =====
-- Runs of the amounts on concrete inputs.
use backend_challenge_go_jun.Prelude.{◌≡◌, ◌≢◌, true, refl, ◌^◌, ◌-◌, ok, err, arith}
use backend_challenge_go_jun.Prelude.Bytes.{Bytes, codes, bytes_eq}
use backend_challenge_go_jun.Prelude.Int.{ℤ, pos, min_int64, wrap64, ◌+ℤ◌, ◌-ℤ◌}
use backend_challenge_go_jun.Money.{Money, add, sub, overflow, invalid_input, currency_pattern}
use backend_challenge_go_jun.Money.Arith.{Compatible, Exact, add-Exact, sub-Exact}
use backend_challenge_go_jun.Money.Format.{parse, to_string}
use backend_challenge_go_jun.Money.Format.Lemmas.{parse-to_string}
use backend_challenge_go_jun.Money.Format.Canonical.{to_string-parse}

abbrev brl : Bytes
brl = codes "BRL"

abbrev cents : ℤ → Money
cents z = record { minor_units = z; currency = brl }

compatible : Compatible (cents (pos 1050)) (cents (pos 250))
compatible = record { initialized = refl; same_currency = refl }

add-Exact_example : Exact brl (pos 1050 +ℤ pos 250) (add (cents (pos 1050)) (cents (pos 250)))
add-Exact_example =
    add-Exact (cents (pos 1050)) (cents (pos 250)) compatible (ground arith) (ground arith)

sub-Exact_example :
    (pos 250 ≢ min_int64
      → Exact brl (pos 1050 -ℤ pos 250) (sub (cents (pos 1050)) (cents (pos 250))))
    × (pos 250 ≡ min_int64 → sub (cents (pos 1050)) (cents (pos 250)) ≡ err overflow)
sub-Exact_example =
    sub-Exact (cents (pos 1050)) (cents (pos 250)) compatible (ground arith) (ground arith)

currency_brl : currency_pattern brl ≡ true
unfolding currency_pattern
currency_brl = refl

parsed : parse (codes "10.50") brl ≡ ok (cents (pos 1050))
unfolding parse
parsed = refl

overflowing : add (cents (pos (2 ^ 63 - 1))) (cents (pos 1)) ≡ err overflow
unfolding add ◌+ℤ◌ wrap64 bytes_eq
overflowing = refl

padded : parse (codes "010.50") brl ≡ err invalid_input
unfolding parse
padded = refl

parse-to_string_example : parse (to_string (cents (pos 1050))) brl ≡ ok (cents (pos 1050))
parse-to_string_example = parse-to_string 1050 brl currency_brl (ground arith)

to_string-parse_example : to_string (cents (pos 1050)) ≡ codes "10.50"
to_string-parse_example = to_string-parse (codes "10.50") brl parsed
