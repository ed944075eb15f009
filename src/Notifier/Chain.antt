-- ===== src/Notifier/Chain.antt =====
-- The three notifier blocks of 05-Notifier/notifier.c and what they log, second by second. The chain is
-- the kernel's: an interface with the laws of raw_notifier_chain_register and raw_notifier_call_chain.
use linux_dev_note.Common.{
  ℕ, zero, suc, ◌%◌, ◌^◌, ◌<◌, ◌≡◌, refl, ap, ap₂, ◌∙◌, Bool, true, false, List, [], ◌∷◌, ◌++◌, map,
  leb, if◌then◌else◌,
}
use linux_dev_note.Notifier.{added, seconds}
use linux_dev_note.Notifier.Ticks.{seconds_lem, down_from}

-- `result & NOTIFY_STOP_MASK`, for the bits of an int
abbrev pub stops : ℕ → Bool
stops result = leb 0x8000 (result % 2 ^ 16)

-- The blocks that are called for an event: all, up to the first whose result stops the chain.
abbrev pub up_to_stop : (ℕ → ℕ) → List ℕ → List ℕ
up_to_stop result [] = []
up_to_stop result (b ∷ bs) =
    let rest = up_to_stop result bs in if stops (result b) then b ∷ [] else b ∷ rest

pub record ChainCalls : Type 1 where
  pub Chain : Type 0
  pub blocks : Chain → List ℕ
  pub head_init : Chain  -- RAW_NOTIFIER_HEAD
  pub register : Chain → ℕ → Chain
  pub called : Chain → (ℕ → ℕ) → List ℕ  -- the blocks called, by the results of their handlers

-- Blocks of the same priority are called in the order in which they were registered.
pub record IsChainCalls (c : ChainCalls) : Type 0 where
  pub init_empty : c.blocks c.head_init ≡ []
  pub register_last : (h : c.Chain) (b : ℕ) → c.blocks (c.register h b) ≡ c.blocks h ++ b ∷ []
  pub called_blocks :
      (h : c.Chain) (result : ℕ → ℕ) → c.called h result ≡ up_to_stop result (c.blocks h)

-- What a handler logs: its number and the event.
pub record Line : Type 0 where
  pub block : ℕ
  pub event : ℕ

-- `notifier_event1`, `notifier_event2` and `notifier_event3`: none has a return statement, so the result
-- is any number.
unfoldable pub notifier_event : (ℕ → ℕ → ℕ) → ℕ → ℕ → ℕ × Line
notifier_event garbage event block = (garbage event block, record { block = block; event = event })

module _ (c : ChainCalls) where
  open c use {Chain, head_init, register, called}

  -- the chain behind `myNotifier_init`
  unfoldable pub my_notifier : Chain
  my_notifier = register (register (register head_init 1) 2) 3

  -- what one raw_notifier_call_chain logs
  unfoldable pub call_chain : (ℕ → ℕ → ℕ) → ℕ → List Line
  unfolding my_notifier notifier_event
  call_chain garbage event =
      map (λ b. (notifier_event garbage event b).1)
        (called my_notifier (λ b. (notifier_event garbage event b).0))

  -- what the calls for these events log, the newest event first
  unfoldable pub call_all : (ℕ → ℕ → ℕ) → List ℕ → List Line
  call_all garbage [] = []
  call_all garbage (event ∷ earlier) = call_all garbage earlier ++ call_chain garbage event

-- the lines of the blocks for events 0 to n - 1
abbrev pub lines : List ℕ → ℕ → List Line
lines bs zero = []
lines bs (suc n) = lines bs n ++ map (λ b. record { block = b; event = n }) bs

my_notifier-blocks :
    (c : ChainCalls) (law : IsChainCalls c) → c.blocks (my_notifier c) ≡ 1 ∷ 2 ∷ 3 ∷ []
unfolding my_notifier
my_notifier-blocks c law =
    law.register_last _ 3
    ∙ ap (λ l. l ++ 3 ∷ [])
        (law.register_last _ 2
          ∙ ap (λ l. l ++ 2 ∷ []) (law.register_last _ 1 ∙ ap (λ l. l ++ 1 ∷ []) law.init_empty))

module _ (c : ChainCalls) (law : IsChainCalls c) where
  call_all-lines :
      (garbage : ℕ → ℕ → ℕ) (bs : List ℕ)
      → ((e : ℕ) → up_to_stop (garbage e) (1 ∷ 2 ∷ 3 ∷ []) ≡ bs)
      → (n : ℕ) → call_all c garbage (down_from n) ≡ lines bs n
  unfolding call_all call_chain notifier_event
  call_all-lines garbage bs h zero = refl
  call_all-lines garbage bs h (suc n) = ap₂ ◌++◌ (call_all-lines garbage bs h n) (
      ap (map (λ b. record { block = b; event = n })) (
        law.called_blocks (my_notifier c) (garbage n)
        ∙ ap (up_to_stop (garbage n)) (my_notifier-blocks c law)
        ∙ h n))

  -- Where the chain keeps its laws, and after `n` seconds, fewer than 2^64: with results of the
  -- handlers that never stop the chain, each of the events 0 to n - 1 has been logged by the three
  -- blocks, in the order of their registration; with results of the first that always stop it, by
  -- the first alone.
  pub call_all-seconds :
      (garbage stopping : ℕ → ℕ → ℕ) (n : ℕ)
      → n < 2 ^ 64
      → ((e b : ℕ) → stops (garbage e b) ≡ false)
      → ((e : ℕ) → stops (stopping e 1) ≡ true)
      → (call_all c garbage (seconds n added).events ≡ lines (1 ∷ 2 ∷ 3 ∷ []) n)
        × (call_all c stopping (seconds n added).events ≡ lines (1 ∷ []) n)
  call_all-seconds garbage stopping n h on off =
      let events : (seconds n added).events ≡ down_from n = ap (λ t. t.events) (seconds_lem n h) in
      (
        ap (call_all c garbage) events
            ∙ call_all-lines garbage (1 ∷ 2 ∷ 3 ∷ []) (λ e. rw (on e 1, on e 2, on e 3) refl) n,
        ap (call_all c stopping) events ∙ call_all-lines stopping (1 ∷ []) (λ e. rw (off e) refl) n,
      )
