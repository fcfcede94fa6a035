-- ===== src/Tests/Protocol.antt =====
-- The protocol: the cases of tests/protocol_test.cpp and the theorems at concrete lines.
use cs2640_final_project.Prelude.{◌≡◌, refl, [], ◌∷◌, ◌++◌, bytes}
use cs2640_final_project.Protocol.{
  Response, get, set, value, request, invalid_request, parse_request, trim, trim_left, trim_right,
  trim_end, lower_copy, find, parse_key, parse_set, check_set, parse_command, parse_cleaned,
}
use cs2640_final_project.Protocol.Parse.{IsKey, IsValue, IsWellFormed, parse_request-IsWellFormed}
use cs2640_final_project.Protocol.RoundTrip.{command_line, parse_request-command_line}

unfoldable pub program : Unit {0}
unfolding trim trim_left trim_right trim_end lower_copy find parse_key check_set parse_set
    parse_command parse_cleaned parse_request
program = tt

parse_get : parse_request (bytes "  GeT foo ") ≡ request get (bytes "foo") []
unfolding program
parse_get = refl

parse_set_spaces :
    parse_request (bytes "SET foo hello world") ≡ request set (bytes "foo") (bytes "hello world")
unfolding program
parse_set_spaces = refl

parse_two_keys :
    parse_request (bytes "GET a b") ≡ invalid_request (bytes "GET accepts exactly one key")
unfolding program
parse_two_keys = refl

-- A tab is whitespace to `isspace`, but does not end a command.
parse_tab :
    parse_request (71 ∷ 69 ∷ 84 ∷ 9 ∷ 97 ∷ [])
    ≡ invalid_request (bytes "unknown command: " ++ 103 ∷ 101 ∷ 116 ∷ 9 ∷ 97 ∷ [])
unfolding program
parse_tab = refl

-- SET takes a key that ends in a tab, which GET and DEL cannot name.
set_tab_key :
    parse_request (bytes "SET a" ++ 9 ∷ bytes " b") ≡ request set (97 ∷ 9 ∷ []) (bytes "b")
unfolding program
set_tab_key = refl

abbrev pub key_a : IsKey (bytes "a")
key_a = record { starts = refl; one_word = refl }

abbrev pub value_x_y : IsValue (bytes "x y")
value_x_y = record { starts = refl; ends = refl }

parse_request-IsWellFormed_example : IsWellFormed (parse_request (bytes "set a x y"))
parse_request-IsWellFormed_example = parse_request-IsWellFormed (bytes "set a x y")

parse_request-command_line_example :
    parse_request (bytes " " ++ (command_line set (bytes "a") (bytes "x y") ++ 13 ∷ []))
    ≡ request set (bytes "a") (bytes "x y")
parse_request-command_line_example =
    parse_request-command_line set (bytes "a") (bytes "x y") (bytes " ") (13 ∷ []) (cc)
      (key_a, value_x_y, refl) (refl, tt) (refl, tt)

abbrev hello : Response
hello = record { type = value; payload = bytes "hello" }
