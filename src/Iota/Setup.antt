-- ===== src/Iota/Setup.antt =====
-- What the set-up of iota/plugin.go configures.
use iotacaddy.Prelude.{true, [], ◌∷◌, ◌≡◌, refl, Text}
use iotacaddy.Lexer.Defs.{Token}
use iotacaddy.Dispenser.Defs.{
  new_dispenser_tokens, next, next_arg, next_if, same_line, val, arg_err, advance,
}
use iotacaddy.Iota.Int.{atoi}
use iotacaddy.Iota.Defs.{
  Config, or_default, default_max_mwm, default_max_txs_in_bundle, configure, setup_args, ready,
  refused, setup,
}

-- With two arguments behind it on its line, the directive sets both limits, to the default where an
-- argument is no number.
pub setup_two :
    (g : Config) (name : Text) (t a b : Token)
    → same_line t a ≡ true
    → same_line a b ≡ true
    → setup g (new_dispenser_tokens name (t ∷ a ∷ b ∷ []))
      ≡ ready (record {
        max_mwm = or_default default_max_mwm (atoi a.text);
        max_tx_in_bundle = or_default default_max_txs_in_bundle (atoi b.text);
      })
unfolding setup setup_args configure next next_arg next_if val
setup_two g name t a b s s' = rw s (rw s' refl)

-- With one argument only, on its line, the set-up is refused, and the limit on the weight is
-- changed all the same.
pub setup_one :
    (g : Config) (name : Text) (t a : Token)
    → same_line t a ≡ true
    → setup g (new_dispenser_tokens name (t ∷ a ∷ []))
      ≡ refused
          (record g { max_mwm = or_default default_max_mwm (atoi a.text) })
          (arg_err (advance (advance (new_dispenser_tokens name (t ∷ a ∷ [])))))
unfolding setup setup_args configure next next_arg next_if val
setup_one g name t a s = rw s refl
