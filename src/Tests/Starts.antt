-- ===== src/Tests/Starts.antt =====
-- MedusaUserlandAgent/main.go: starts of the agent.
use open_anti_cheat.Common.{◌≡◌, ◌≢◌, ◌<◌, refl, ◌⊎◌, ◌↔◌, none, [], ◌∷◌, arith}
use open_anti_cheat.Text.Utf8.{encode_utf8}
use open_anti_cheat.Text.Decimal.{decimal, decimal_with}
use open_anti_cheat.Agent.Main.{main, panics, runs, port_name}
use open_anti_cheat.Agent.Main.Pid.{sscanf_d}
use open_anti_cheat.Agent.Main.Arguments.{main-decimal, main-panics}
use open_anti_cheat.Tests.Ports.{willing}

printed : decimal 4711 ≡ b'4' ∷ b'7' ∷ b'1' ∷ b'1' ∷ []
unfolding decimal decimal_with
printed = refl

main-decimal_example :
    main willing 99 ((b'a' ∷ []) ∷ encode_utf8 (decimal 4711) ∷ (b'u' ∷ []) ∷ (b'd' ∷ []) ∷ [])
    ≡ runs 4711 (b'u' ∷ []) (b'd' ∷ []) (record { h_port = 42; name = port_name })
main-decimal_example =
    main-decimal willing 99 (b'a' ∷ []) (b'u' ∷ []) (b'd' ∷ []) [] 4711 port_name 0 42 (omega arith)
      refl refl refl

main-panics_example :
    (main willing 99 ((b'a' ∷ []) ∷ []) ≡ panics) ↔ ((1 < 2) ⊎ ((1 < 4) × (sscanf_d [] ≢ none)))
main-panics_example = main-panics willing 99 ((b'a' ∷ []) ∷ [])
