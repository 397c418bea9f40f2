-- ===== src/SymFile/Tokens/Words.antt =====
-- Splitting a text that was joined by spaces gives the words back.
use rust_minidump.Base.{
  ℕ, ◌+◌, false, ◌≡◌, ◌≢◌, refl, sym, ◌∙◌, ap, List, [], ◌∷◌, ◌++◌, map, All, append_assoc,
  append_nil, Bytes,
}
use rust_minidump.SymFile.Tokens.{
  is_ascii_whitespace, Token, flush, split_from, split_ascii_whitespace, words,
}

-- Words with a space between each two.
abbrev pub join : List Bytes → Bytes
join [] = []
join (w ∷ []) = w
join (w ∷ v ∷ ws) = w ++ 32 ∷ join (v ∷ ws)

-- A word is not empty and holds no white space.
abbrev pub IsWord : Bytes → Type 0
IsWord w = (w ≢ []) × All (λ c. is_ascii_whitespace c ≡ false) w

-- Bytes that are no white space go to the current word.
split_from-append :
    (w : Bytes) (pos : ℕ) (cur rest : Bytes)
    → All (λ c. is_ascii_whitespace c ≡ false) w
    → (p : ℕ) × (split_from pos cur (w ++ rest) ≡ split_from p (cur ++ w) rest)
unfolding split_from
split_from-append [] pos cur rest h =
    (pos, ap (λ (x : Bytes). split_from pos x rest) (sym (append_nil cur)))
split_from-append (c ∷ cs) pos cur rest h =
    let (p, e) = split_from-append cs (pos + 1) (cur ++ c ∷ []) rest h.1 in
    (
      p,
      rw (h.0, split_from)
          (e ∙ ap (λ (x : Bytes). split_from p x rest) (append_assoc cur (c ∷ []) cs)),
    )

abbrev word_list : List Token → List Bytes
word_list = map (λ t. t.word)

words_flush :
    (pos : ℕ) (w : Bytes) (rest : List Token)
    → w ≢ []
    → map (λ t. t.word) (flush pos w rest) ≡ w ∷ map (λ t. t.word) rest
words_flush pos [] rest h = absurd (h refl)
words_flush pos (c ∷ cs) rest h = refl

words_from :
    (ws : List Bytes) (pos : ℕ)
    → All IsWord ws
    → map (λ t. t.word) (split_from pos [] (join ws)) ≡ ws
unfolding split_from
words_from [] pos h = refl
words_from (w ∷ []) pos h =
    let (p, e) = split_from-append w pos [] [] h.0.1 in
    ap (λ (x : Bytes). word_list (split_from pos [] x)) (sym (append_nil w))
    ∙ ap word_list e
    ∙ words_flush p w [] h.0.0
words_from (w ∷ v ∷ ws) pos h =
    let (p, e) = split_from-append w pos [] (32 ∷ join (v ∷ ws)) h.0.1 in
    ap word_list e
    ∙ words_flush p w (split_from (p + 1) [] (join (v ∷ ws))) h.0.0
    ∙ ap (◌∷◌ w) (words_from (v ∷ ws) (p + 1) h.1)

-- Splitting a joined text gives the words back.
pub words-join : (ws : List Bytes) → All IsWord ws → words (join ws) ≡ ws
unfolding split_ascii_whitespace
words-join ws h = words_from ws 0 h
