-- ===== src/Readonly/Words.antt =====
-- The denylist by the words that it denies.
use go_kd.Prelude.{
  ℕ, ◌≡◌, refl, Bool, true, false, ◌&&◌, ◌||◌, List, [], ◌∷◌, ◌++◌, map, arith, length, drop, ◌==◌,
  if◌then◌else◌,
}
use go_kd.Text.{Text, trim_left, text_eq}
use go_kd.Readonly.{
  Pattern, is_re_space, is_word, boundary, fold, runes, has_folded_prefix, raw_command_deny,
  matches_word, matches_any, match_string, deny_loop, deny_raw_command,
}

-- The words that a text begins with, folded. A word takes all the ASCII word characters that follow
-- one another; ſ and the Kelvin sign, which only fold to one, may stand behind its end or be read on.
unfoldable pub words_of : List ℕ → List Text
words_of [] = [] ∷ []
words_of (c ∷ s) =
    let longer = map (fold c ∷◌) (words_of s) in
    if is_word c then longer else if is_word (fold c) then [] ∷ longer else [] ∷ []

-- A command's names: such a word, with the dot of a meta command before it.
unfoldable pub names_of : List ℕ → List Text
unfolding words_of
names_of [] = []
names_of (c ∷ s) = if c == b'.' then map (b'.' ∷◌) (words_of s) else words_of (c ∷ s)

unfoldable pub is_one_of : Text → List Text → Bool
unfolding text_eq
is_one_of w [] = false
is_one_of w (v ∷ vs) = text_eq w v || is_one_of w vs

-- whether one of the words is among the names
unfoldable pub some_among : List Text → List Text → Bool
unfolding is_one_of
some_among [] names = false
some_among (w ∷ ws) names = is_one_of w names || some_among ws names

-- every word that some pattern stands for
unfoldable pub denied_words : List Pattern → List Text
denied_words [] = []
denied_words (p ∷ ps) = p ++ denied_words ps

unfoldable pub all_word : Text → Bool
all_word [] = true
all_word (c ∷ s) = is_word c && all_word s

-- The patterns stand for words, with a dot before some.
unfoldable pub is_name : Text → Bool
unfolding all_word
is_name [] = false
is_name (c ∷ s) = if c == b'.' then all_word s else all_word (c ∷ s)

unfoldable pub all_names : List Text → Bool
unfolding is_name
all_names [] = true
all_names (w ∷ ws) = is_name w && all_names ws

is_one_of-map_nil : (x : ℕ) (vs : List Text) → is_one_of [] (map (x ∷◌) vs) ≡ false
unfolding is_one_of text_eq
is_one_of-map_nil x [] = refl
is_one_of-map_nil x (v ∷ vs) = is_one_of-map_nil x vs

is_one_of-map :
    (x d : ℕ) (w : Text) (vs : List Text)
    → is_one_of (d ∷ w) (map (x ∷◌) vs) ≡ ((d == x) && is_one_of w vs)
unfolding is_one_of text_eq
is_one_of-map x d w [] = ground arith
is_one_of-map x d w (v ∷ vs) = ground (arith, is_one_of-map x d w vs)

is_word-fold : (c : ℕ) → is_word c ≡ true → is_word (fold c) ≡ true
unfolding is_word fold
is_word-fold c h = ground arith

fold-dot : (c : ℕ) → (fold c == b'.') ≡ (c == b'.')
unfolding fold
fold-dot c = ground arith

-- No word begins with another character.
words_of-word :
    (s : List ℕ) (d : ℕ) (w : Text) → is_word d ≡ false → is_one_of (d ∷ w) (words_of s) ≡ false
unfolding words_of is_one_of text_eq
words_of-word [] d w h = refl
words_of-word (c ∷ s) d w h =
    ground (arith, is_one_of-map (fold c) d w (words_of s), is_word-fold c)

prefix-words_of :
    (s : List ℕ) (w : Text)
    → all_word w ≡ true
    → (has_folded_prefix s w && boundary (drop (length w) s)) ≡ is_one_of w (words_of s)
unfolding has_folded_prefix boundary words_of is_one_of text_eq all_word
prefix-words_of [] [] h = refl
prefix-words_of [] (d ∷ w) h = refl
prefix-words_of (c ∷ s) [] h = ground (arith, is_one_of-map_nil (fold c) (words_of s))
prefix-words_of (c ∷ s) (d ∷ w) h =
    ground (arith, is_one_of-map (fold c) d w (words_of s), is_word-fold c, prefix-words_of s w)

dot-not-word : is_word b'.' ≡ false
unfolding is_word
dot-not-word = refl

matches_word-eq :
    (s : List ℕ) (w : Text) → is_name w ≡ true → matches_word s w ≡ is_one_of w (names_of s)
unfolding matches_word names_of is_name is_one_of has_folded_prefix
matches_word-eq s [] h = ground arith
matches_word-eq [] (d ∷ w) h = refl
matches_word-eq (c ∷ s) (d ∷ w) h = ground (
  arith,
  prefix-words_of s w,
  prefix-words_of (c ∷ s) (d ∷ w),
  is_one_of-map b'.' d w (words_of s),
  words_of-word (c ∷ s) d w,
  dot-not-word,
  fold-dot c,
)

matches_any-eq :
    (s : List ℕ) (p : Pattern) → all_names p ≡ true → matches_any s p ≡ some_among p (names_of s)
unfolding matches_any some_among all_names
matches_any-eq s [] h = refl
matches_any-eq s (w ∷ ws) h = ground (arith, matches_word-eq s w, matches_any-eq s ws)

all_names-append :
    (ws vs : List Text)
    → all_names (ws ++ vs) ≡ true
    → (all_names ws ≡ true) × (all_names vs ≡ true)
unfolding all_names
all_names-append [] vs h = (refl, h)
all_names-append (w ∷ ws) vs h = ground (arith, all_names-append ws vs)

some_among-append :
    (us vs names : List Text)
    → some_among (us ++ vs) names ≡ (some_among us names || some_among vs names)
unfolding some_among
some_among-append [] vs names = refl
some_among-append (u ∷ us) vs names = ground (arith, some_among-append us vs names)

deny_loop-eq :
    (ps : List Pattern) (cmd : Text)
    → all_names (denied_words ps) ≡ true
    → deny_loop ps cmd ≡ some_among (denied_words ps) (names_of (trim_left is_re_space (runes cmd)))
unfolding deny_loop denied_words match_string some_among
deny_loop-eq [] cmd h = refl
deny_loop-eq (p ∷ ps) cmd h =
    let (mine, rest) = all_names-append p (denied_words ps) h in
    let text = trim_left is_re_space (runes cmd) in
    ground (
      arith,
      matches_any-eq text p mine,
      some_among-append p (denied_words ps) (names_of text),
      deny_loop-eq ps cmd rest,
    )

-- A raw command is refused exactly if one of the denied words is among its names: the words that it
-- begins with once the blanks before it are skipped, with a dot before it taken in, each of which ends
-- where no ASCII word character follows, and with each character folded as in Go's patterns, ſ to s
-- and the Kelvin sign to k as well.
pub deny_raw_command_lem :
    (cmd : Text)
    → deny_raw_command cmd
      ≡ some_among (denied_words raw_command_deny) (names_of (trim_left is_re_space (runes cmd)))
unfolding deny_raw_command all_names denied_words is_word
deny_raw_command_lem cmd = deny_loop-eq raw_command_deny cmd refl
