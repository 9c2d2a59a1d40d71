-- ===== src/RegisterButton/Tests.antt =====
-- The theorems on the button at concrete inputs.
use jjudge.Prelude.{◌≡◌, true, none, some, lit}
use jjudge.RegisterButton.{get_register, initial, effect}
use jjudge.RegisterButton.Effects.{begun, awaited, ended, effect-ended}

effect-ended_example :
    let (p, first) = begun 7 (some (lit "token")) initial in
    let (q, last) = begun 8 (some (lit "token")) p in
    let (r, none_left) = begun 8 none p in
    (awaited first ≡ some (get_register 7 (lit "token")))
    × (awaited last ≡ some (get_register 8 (lit "token")))
    × (awaited none_left ≡ none)
    × (ended (some true) last (ended none first q)
        ≡ record initial { registered = some true; current = 2 })
    × (ended none first (ended (some true) last q)
        ≡ record initial { registered = some true; current = 2 })
    × (ended none first r ≡ record initial { current = 2 })
unfolding effect initial
effect-ended_example = effect-ended initial 7 8 (lit "token") (lit "token") none (some true)
