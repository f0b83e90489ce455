-- ===== src/Channel/Printing.antt =====
-- `eventsToString` of SrcFile/Channel.c, and what its text tells.
use simple_net_base.Prelude.{
  ℕ, Bool, true, false, not, ◌&&◌, List, [], ◌∷◌, ◌++◌, ◌==◌, if◌then◌else◌, drop, length,
}
use Prim.Native.String.{String}
use simple_net_base.Prelude.Decimal.{codes, decimal}
use simple_net_base.Channel.{
  Channel, has, pollin, pollpri, pollout, pollerr, pollhup, pollnval, pollrdhup,
}

-- The flags in the order in which they are printed.
abbrev pub event_names : List (ℕ × String)
event_names =
    (pollin, "IN ")
    ∷ (pollpri, "PRI ")
    ∷ (pollout, "OUT ")
    ∷ (pollhup, "HUP ")
    ∷ (pollrdhup, "RDHUP ")
    ∷ (pollerr, "ERR ")
    ∷ (pollnval, "NVAL ")
    ∷ []

unfoldable pub words_of : ℕ → List (ℕ × String) → List ℕ
words_of ev [] = []
words_of ev ((flag, word) ∷ names) = (if has ev flag then codes word else []) ++ words_of ev names

unfoldable pub events_text : ℕ → ℕ → List ℕ
unfolding words_of
events_text fd ev = decimal fd ++ (codes ": " ++ words_of ev event_names)

-- `reventsToString` and `eventsToString` of a channel.
unfoldable pub revents_to_string : Channel → List ℕ
unfolding events_text
revents_to_string c = events_text c.fd c.revents

unfoldable pub events_to_string : Channel → List ℕ
unfolding events_text
events_to_string c = events_text c.fd c.events

-- Reading back: a word is known by its first letter.
abbrev starts : ℕ → List ℕ → Bool
starts c [] = false
starts c (x ∷ xs) = x == c

abbrev initial : List ℕ → ℕ
initial [] = 0
initial (x ∷ xs) = x

abbrev pub read_words : List String → List ℕ → List Bool
read_words [] s = []
read_words (word ∷ words) s =
    let u = codes word in
    if starts (initial u) s
    then true ∷ read_words words (drop (length u) s)
    else false ∷ read_words words s

-- No word starts with the letter, and each word has a letter that no later word starts with.
abbrev avoided : ℕ → List (ℕ × String) → Bool
avoided c [] = true
avoided c ((flag, word) ∷ names) = not (starts c (codes word)) && avoided c names

abbrev told_apart : List (ℕ × String) → Bool
told_apart [] = true
told_apart ((flag, word) ∷ names) =
    starts (initial (codes word)) (codes word)
    && (avoided (initial (codes word)) names && told_apart names)
