-- ===== src/Protocol/RoundTrip.antt =====
-- The lines that the clients send, and what the server reads from them.
use cs2640_final_project.Prelude.{
  ◌≡◌, ◌≢◌, refl, sym, ap, ◌∙◌, true, false, [], ◌∷◌, ◌++◌, nat_eq, list_eq, take-length_append,
  drop-length_cons, Bytes, bytes,
}
use cs2640_final_project.Protocol.{
  RequestType, get, set, del, quit, invalid, is_empty, lower_copy, request, parse_key, parse_set,
  parse_command, parse_cleaned, parse_request,
}
use cs2640_final_project.Protocol.Trim.{
  IsBlank, starts_ink, ends_ink, trim_left-ink, trim_left-blank, trim_between, starts_ink-append,
  ends_ink-append,
}
use cs2640_final_project.Protocol.Find.{has, find_absent, find-append}
use cs2640_final_project.Protocol.Parse.{IsKey, IsValue, WellFormedAs, check_set-IsWellFormed}

-- The line of a request, as the benchmark clients build it; DEL and QUIT as a user types them.
unfoldable pub command_line : RequestType → Bytes → Bytes → Bytes
command_line get k v = bytes "GET " ++ k
command_line set k v = bytes "SET " ++ (k ++ b' ' ∷ v)
command_line del k v = bytes "DEL " ++ k
command_line quit k v = bytes "QUIT"
command_line invalid k v = []

not_empty : (xs : Bytes) → starts_ink xs ≡ true → is_empty xs ≡ false
not_empty [] h = cc
not_empty (c ∷ cs) h = refl

parse_trimmed :
    (pre xs post : Bytes)
    → IsBlank pre
    → starts_ink xs ≡ true
    → ends_ink xs ≡ true
    → IsBlank post
    → parse_request (pre ++ (xs ++ post)) ≡ parse_cleaned xs
unfolding parse_request
parse_trimmed pre xs post p s e q = rw (trim_between pre xs post p s e q, not_empty xs s)

-- A line of a command word in any case, a space, more blanks and an argument area that starts and
-- ends in ink, between blanks, is parsed as the lower-cased word with that area.
pub parse_request-command :
    (pre word gap area post : Bytes)
    → IsBlank pre
    → starts_ink word ≡ true
    → has b' ' word ≡ false
    → IsBlank gap
    → starts_ink area ≡ true
    → ends_ink area ≡ true
    → IsBlank post
    → parse_request (pre ++ ((word ++ b' ' ∷ (gap ++ area)) ++ post))
      ≡ parse_command (lower_copy word) area
unfolding parse_cleaned
parse_request-command pre word gap area post p s one g a z q =
    let line : Bytes = word ++ b' ' ∷ (gap ++ area) in
    parse_trimmed pre line post p (starts_ink-append word _ s)
      (ends_ink-append word _ (ends_ink-append (b' ' ∷ gap) area z)) q
    ∙ rw (
      find-append b' ' word (gap ++ area) one,
      parse_cleaned,
      take-length_append,
      drop-length_cons,
      trim_left-blank gap area g,
      trim_left-ink area a,
    )

-- A command word alone, in any case, between blanks.
pub parse_request_word :
    (pre word post : Bytes)
    → IsBlank pre
    → starts_ink word ≡ true
    → ends_ink word ≡ true
    → has b' ' word ≡ false
    → IsBlank post
    → parse_request (pre ++ (word ++ post)) ≡ parse_command (lower_copy word) []
unfolding parse_cleaned
parse_request_word pre word post p s z one q =
    parse_trimmed pre word post p s z q ∙ rw (find_absent b' ' word one, parse_cleaned)

parse_key-IsKey : (t : RequestType) (m n k : Bytes) → IsKey k → parse_key t m n k ≡ request t k []
unfolding parse_key
parse_key-IsKey t m n [] h = cc (h.starts)
parse_key-IsKey t m n (c ∷ cs) h = rw (find_absent b' ' (c ∷ cs) h.one_word)

parse_set-IsKey : (k v : Bytes) → IsKey k → IsValue v → parse_set (k ++ b' ' ∷ v) ≡ request set k v
unfolding parse_set
parse_set-IsKey k v h w =
    rw
      (
        find-append b' ' k v h.one_word,
        parse_set,
        take-length_append,
        drop-length_cons,
        trim_left-ink v w.starts,
      )
      (check_set-IsWellFormed k v h w)

-- What a client writes for a well-formed request is read back as that request, also with blanks
-- before and behind it, such as the CR of a CRLF line.
pub parse_request-command_line :
    (t : RequestType) (k v pre post : Bytes)
    → t ≢ invalid
    → WellFormedAs t k v []
    → IsBlank pre
    → IsBlank post
    → parse_request (pre ++ (command_line t k v ++ post)) ≡ request t k v
unfolding command_line parse_command lower_copy
parse_request-command_line get k v pre post n (h, z, e, _) p q =
    parse_request-command pre (bytes "GET") [] k post p refl refl tt h.starts z q
    ∙ parse_key-IsKey get _ _ k h
    ∙ ap (request get k) (sym e)
parse_request-command_line del k v pre post n (h, z, e, _) p q =
    parse_request-command pre (bytes "DEL") [] k post p refl refl tt h.starts z q
    ∙ parse_key-IsKey del _ _ k h
    ∙ ap (request del k) (sym e)
parse_request-command_line set k v pre post n (h, w, _) p q =
    parse_request-command pre (bytes "SET") [] (k ++ b' ' ∷ v) post p refl refl tt
      (starts_ink-append k (b' ' ∷ v) h.starts)
      (ends_ink-append k (b' ' ∷ v) (ends_ink-append (b' ' ∷ []) v w.ends)) q
    ∙ parse_set-IsKey k v h w
parse_request-command_line quit k v pre post n (e, e', _) p q =
    parse_request_word pre (bytes "QUIT") post p refl refl refl q ∙ rw (e, e')
parse_request-command_line invalid k v pre post n h p q = absurd (n refl)
