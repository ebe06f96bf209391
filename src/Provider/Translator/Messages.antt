-- ===== src/Provider/Translator/Messages.antt =====
-- What the translation of a request keeps of its messages.
use mathlib.Core.List.{append_assoc, append-nil}
use majordomo_steward.Prelude.{
  true, false, List, [], ◌∷◌, ◌++◌, Str, ◌≡◌, refl, sym, ap, ◌∙◌, inl, inr, Bool-cases,
  if◌then◌else◌,
}
use majordomo_steward.Provider.Translator.{
  Message, OpenaiRequest, is_system, convert_messages, max_tokens_or, to_anthropic,
}

-- The messages that are not of the role "system", in order.
abbrev pub others : List Message → List Message
others [] = []
others (m ∷ ms) = if is_system m then others ms else m ∷ others ms

-- The content of the last message of the role "system", `d` where there is none.
abbrev pub last_system : Str → List Message → Str
last_system d [] = d
last_system d (m ∷ ms) = if is_system m then last_system m.content ms else last_system d ms

convert_messages_lem :
    (msgs : List Message) (system : Str) (messages : List Message)
    → convert_messages msgs system messages ≡ (last_system system msgs, messages ++ others msgs)
unfolding convert_messages
convert_messages_lem [] system messages = ap (λ l. (system, l)) (sym (append-nil messages))
convert_messages_lem (m ∷ ms) system messages = elim (Bool-cases (is_system m)) [
  | inl h ↦ rw h (convert_messages_lem ms m.content messages)
  | inr n ↦ rw n (
      convert_messages_lem ms system (messages ++ (m ∷ []))
      ∙ ap (λ l. (last_system system ms, l)) (append_assoc messages (m ∷ []) (others ms)))
]

others-append : (xs ys : List Message) → others (xs ++ ys) ≡ others xs ++ others ys
others-append [] ys = refl
others-append (m ∷ xs) ys = elim (Bool-cases (is_system m)) [
  | inl h ↦ rw h (others-append xs ys)
  | inr n ↦ rw n (ap (λ l. m ∷ l) (others-append xs ys))
]

last_system-append :
    (d : Str) (xs ys : List Message) → last_system d (xs ++ ys) ≡ last_system (last_system d xs) ys
last_system-append d [] ys = refl
last_system-append d (m ∷ xs) ys = elim (Bool-cases (is_system m)) [
  | inl h ↦ rw h (last_system-append m.content xs ys)
  | inr n ↦ rw n (last_system-append d xs ys)
]

-- No message of the list is of the role "system".
abbrev pub NoSystem : List Message → Type 0
NoSystem [] = Unit
NoSystem (m ∷ ms) = (is_system m ≡ false) × NoSystem ms

others-NoSystem : (ms : List Message) → NoSystem ms → others ms ≡ ms
others-NoSystem [] h = refl
others-NoSystem (m ∷ ms) (n, h) = rw n (ap (λ l. m ∷ l) (others-NoSystem ms h))

last_system-NoSystem : (d : Str) (ms : List Message) → NoSystem ms → last_system d ms ≡ d
last_system-NoSystem d [] h = refl
last_system-NoSystem d (m ∷ ms) (n, h) = rw n (last_system-NoSystem d ms h)

-- For every request whose messages are `before`, a message of the role "system", and `after`, which has
-- no such message: the translated request has the content of that message as its system prompt, its
-- messages are those of `before` of other roles followed by `after`, in order, and the limit of tokens
-- is that of the request, or 4096 if the request has none.
pub to_anthropic-last_system :
    {F : Type 0} (req : OpenaiRequest F) (before after : List Message) (m : Message)
    → req.messages ≡ before ++ (m ∷ after)
    → is_system m ≡ true
    → NoSystem after
    → ((to_anthropic req).system ≡ m.content)
      × ((to_anthropic req).messages ≡ others before ++ after)
      × ((to_anthropic req).max_tokens ≡ max_tokens_or req.max_tokens)
unfolding to_anthropic
to_anthropic-last_system req before after m e h n =
    let c = convert_messages_lem req.messages [] [] in
    (
      ap (λ p. p.0) c
          ∙ rw e (
              last_system-append [] before (m ∷ after)
              ∙ rw h (last_system-NoSystem m.content after n)),
      ap (λ p. p.1) c
          ∙ rw e (others-append before (m ∷ after) ∙ rw h (rw (others-NoSystem after n) refl)),
      refl,
    )
