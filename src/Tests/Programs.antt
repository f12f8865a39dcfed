-- ===== src/Tests/Programs.antt =====
-- How the program begins to run.
use ae_proxy.Base.{
  ℕ, ◌≡◌, refl, List, [], ◌∷◌, Option, none, some, ℤ, success, failure, same_text, if◌then◌else◌,
}
use mathlib.Core.Option.{bind}
use ae_proxy.Main.{
  ParseResult, Config, ends_with, throws, runs_tcp, new_proxy, udp_text, tcp_section, main,
}

abbrev ip : List ℕ
ip = 49 ∷ 46 ∷ 50 ∷ []

-- A configuration with the section of the TCP proxy only; its file has a name of one letter.
abbrev config : Config ℕ
config = record {
  load = λ name. if same_text name (99 ∷ []) then some 0 else none;
  get_string = λ jc name field. if same_text name tcp_section then some ip else none;
  get_int = λ jc name field. if same_text name tcp_section then some (ℤ.pos 80) else none;
}

-- The parser takes the first argument for the mode.
abbrev parse : List (List ℕ) → Option ParseResult
parse [] = none
parse (mode ∷ _) = some (record { help = 0; config = 99 ∷ []; mode = mode })

not_parsed : main config parse (99 ∷ []) [] ≡ ends_with failure
unfolding main
not_parsed = refl

asks_help :
    main config (λ argv. some (record { help = 1; config = []; mode = [] })) (99 ∷ []) []
    ≡ ends_with success
unfolding main
asks_help = refl

-- Any mode but "udp" is the TCP proxy.
unknown_mode : main config parse (99 ∷ []) ((120 ∷ []) ∷ []) ≡ runs_tcp (new_proxy ip (ℤ.pos 80))
unfolding main same_text bind
unknown_mode = refl

-- A section that is missing throws.
no_section : main config parse (99 ∷ []) (udp_text ∷ []) ≡ throws
unfolding main same_text bind
no_section = refl
