-- ===== src/RichList/Queue.antt =====
-- packages/rich-list-core/src/persistent/Queue.ts: `InMemoryQueueService`, whose state is its DATA.
use jellyfishsdk.Prelude.{
  ℕ, ◌-◌, ◌≡◌, refl, List, [], ◌∷◌, ◌++◌, length, take, drop, ap, ◌∙◌, ◌⊎◌, All, take-drop,
}
use jellyfishsdk.Prelude.{
  true, false, ◌==◌, if◌then◌else◌, same_text, same_text_refl, same_text→eq, sym, subst, Bool-cases,
  inl, inr,
}
use jellyfishsdk.Buffer.Hex.{Text}

-- `findIndex(d => d === message)` and `splice(index, 1)`
unfoldable pub remove_first : Text → List Text → List Text
remove_first message [] = []
remove_first message (d ∷ ds) = if same_text d message then ds else d ∷ remove_first message ds

-- The new DATA. The handle that `push` returns is its last index.
unfoldable pub push : Text → List Text → List Text
push message data_before = remove_first message data_before ++ (message ∷ [])

-- `Math.min(this.DATA.length - maxMessage, 0)` is 0, or -k, which `slice` counts from the end. The
-- messages, and the new DATA.
unfoldable pub receive : ℕ → List Text → List Text × List Text
receive max_message data_before =
    let k = max_message - length data_before in
    let start = length data_before - k in
    if k == 0 then (data_before, []) else (drop start data_before, take start data_before)

-- What is received and what stays are together the queue in its order: nothing is lost.
pub receive-keeps : (n : ℕ) (queue : List Text) → (receive n queue).1 ++ (receive n queue).0 ≡ queue
unfolding receive
receive-keeps n queue = elim (Bool-cases (n - length queue == 0)) [
  | inl all ↦ rw all
  | inr some_left ↦ rw some_left (take-drop (length queue - (n - length queue)) queue)
]

same_text-distinct : (d m : Text) → same_text d m ≡ false → ¬ (d ≡ m)
same_text-distinct d m e same =
    absurd (cc (sym e ∙ subst (λ x. same_text d x ≡ true) same (same_text_refl d)))

abbrev pub IsAbsent : Text → List Text → Type 0
IsAbsent m queue = All (λ d. ¬ (d ≡ m)) queue

-- A message that is not there, or what stands before it for the first time and behind it.
abbrev Removed : Text → List Text → Type 0
Removed m queue =
    (IsAbsent m queue × (remove_first m queue ≡ queue))
    ⊎ ((front : List Text) × (back : List Text) × (queue ≡ front ++ (m ∷ back))
        × IsAbsent m front
        × (remove_first m queue ≡ front ++ back))

remove_first_lem : (m : Text) (queue : List Text) → Removed m queue
unfolding remove_first
remove_first_lem m [] = inl (tt, refl)
remove_first_lem m (d ∷ ds) = elim (Bool-cases (same_text d m)) [
  | inl e ↦ inr ([], ds, ap (λ x. x ∷ ds) (same_text→eq d m e), tt, rw e)
  | inr e ↦ elim (remove_first_lem m ds) [
    | inl (absent, same) ↦ inl ((same_text-distinct d m e, absent), rw (e, same))
    | inr (front, back, split, absent, same) ↦
        inr (
          d ∷ front,
          back,
          ap (λ xs. d ∷ xs) split,
          (same_text-distinct d m e, absent),
          rw (e, same),
        )
  ]
]

-- A pushed message is the last one of the queue. The others are in front of it in their order: all
-- of them where the message was not in the queue, and all but its first occurrence where it was.
pub push_lem :
    (m : Text) (queue : List Text)
    → (IsAbsent m queue × (push m queue ≡ queue ++ (m ∷ [])))
      ⊎ ((front : List Text) × (back : List Text) × (queue ≡ front ++ (m ∷ back))
          × IsAbsent m front
          × (push m queue ≡ (front ++ back) ++ (m ∷ [])))
unfolding push
push_lem m queue = elim (remove_first_lem m queue) [
  | inl (absent, same) ↦ inl (absent, ap (λ xs. xs ++ (m ∷ [])) same)
  | inr (front, back, split, absent, same) ↦
      inr (front, back, split, absent, ap (λ xs. xs ++ (m ∷ [])) same)
]
