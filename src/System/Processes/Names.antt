-- ===== src/System/Processes/Names.antt =====
-- The name of a process, which may hold blanks and parentheses.
use yacul.Common.{◌∙◌, ap, abort, List, arith, refl, ok, [], some, ◌∷◌, ◌++◌, ◌≡◌, ◌==◌, none, ℕ}
use yacul.System.Processes.{
  cut_at, behind_blank, fetch_all_processes, process_of, Source, Bytes, cut_last, parse_process,
}
use yacul.System.Streams.{cut_at, Bytes}
use yacul.System.Streams.Reading.{cut_at-append, None}

cut_last-none : (c : ℕ) (s : Bytes) → None (λ d. d == c) s → cut_last c s ≡ none
unfolding cut_last
cut_last-none c [] h = refl
cut_last-none c (d ∷ s) h = rw (cut_last-none c s h.1) (rw h.0 refl)

cut_last-append :
    (c : ℕ) (k s : Bytes) → None (λ d. d == c) s → cut_last c (k ++ c ∷ s) ≡ some (k, s)
unfolding cut_last
cut_last-append c [] s h = ground (arith, cut_last-none c s h)
cut_last-append c (d ∷ k) s h = ground (arith, cut_last-append c k s h)

-- ParseProcess of a stat file with any name between the first opening and the last closing parenthesis, also
-- one that holds parentheses, blanks and newlines itself: the process has that name, and the fields are
-- read behind the blank that follows it.
pub parse_process-name :
    (src : Source) (pid : ℕ) (front name fields : Bytes)
    → None (λ c. c == b'(') front
    → None (λ c. c == b')') fields
    → src.stat_raw ≡ front ++ b'(' ∷ (name ++ b')' ∷ b' ' ∷ fields)
    → parse_process src pid ≡ ok (some (process_of src pid name fields))
unfolding parse_process
parse_process-name src pid front name fields hf ht at =
    let opens = ap (cut_at b'(') at ∙ cut_at-append b'(' front (name ++ b')' ∷ b' ' ∷ fields) hf in
    let closes = cut_last-append b')' name (b' ' ∷ fields) (refl, ht) in
    rw (parse_process, opens, closes) (unfold behind_blank in refl)

-- A stat file that ends with its closing parenthesis makes ParseProcess throw, since it asks for the text
-- from behind the end; the exception is not caught, and FetchAllProcesses of the processes from that one on
-- throws as well.
pub parse_process_throws :
    (src : Source) (pid : ℕ) (front name : Bytes) (rest : List (ℕ × Source))
    → None (λ c. c == b'(') front
    → src.stat_raw ≡ front ++ b'(' ∷ (name ++ b')' ∷ [])
    → (parse_process src pid ≡ abort) × (fetch_all_processes ((pid, src) ∷ rest) ≡ abort)
unfolding fetch_all_processes parse_process
parse_process_throws src pid front name rest hf at =
    let opens = ap (cut_at b'(') at ∙ cut_at-append b'(' front (name ++ b')' ∷ []) hf in
    let closes = cut_last-append b')' name [] tt in
    let thrown : parse_process src pid ≡ abort =
      rw (parse_process, opens, closes) (unfold behind_blank in refl) in
    (thrown, rw thrown refl)
