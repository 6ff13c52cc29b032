-- ===== src/RichList/Core/Errors.antt =====
-- packages/rich-list-core/src/RichListCore.ts: an error of a round leaves the core as if it were
-- still catching up.
use jellyfishsdk.Prelude.{
  ℕ, ◌≡◌, refl, sym, ◌∙◌, subst, List, [], ◌∷◌, Option, none, some, true, false, Bool-cases, inl,
  inr, Result, ok, err, Error, ◌==◌, same_text,
}
use jellyfishsdk.Buffer.Hex.{Text}
use jellyfishsdk.RichList.Database.{Schema}
use jellyfishsdk.RichList.Core.{
  RpcBlock, CrawledBlock, Node, Core, Outcome, running, stopped, failed, get_crawled_tip,
  next_height, get_block, get_addresses, add_addresses, crawl, requeue, invalidate, follow, advance,
  proceed, catch_up_round, catch_up, start,
}
use jellyfishsdk.RichList.Core.Rounds.{
  follow-ok, follow-err, advance_same, advance_other, catch_up_running, catch_up_stopped,
  catch_up_failed,
}

-- An outcome that has not stopped leaves the flag.
abbrev KeepsFlag : Core → Outcome → Type 0
KeepsFlag core (running core') = core'.is_catching_up ≡ core.is_catching_up
KeepsFlag core (stopped core') = Unit
KeepsFlag core (failed e core') = core'.is_catching_up ≡ core.is_catching_up

add_addresses_flag :
    (height : ℕ) (addresses : List Text) (core : Core)
    → (add_addresses height addresses core).is_catching_up ≡ core.is_catching_up
unfolding add_addresses
add_addresses_flag height [] core = refl
add_addresses_flag height (a ∷ rest) core = add_addresses_flag height rest _

requeue_flag :
    (entries : List (Schema Text)) (core : Core)
    → (requeue entries core).is_catching_up ≡ core.is_catching_up
unfolding requeue
requeue_flag [] core = refl
requeue_flag (a ∷ rest) core = requeue_flag rest _

invalidate_flag :
    (block : Schema CrawledBlock) (core : Core)
    → (invalidate block core).is_catching_up ≡ core.is_catching_up
unfolding invalidate
invalidate_flag block core = elim (Bool-cases (block.payload.height == 0)) [
  | inl t ↦ rw t
  | inr t ↦ rw t (requeue_flag _ _)
]

module _ {Tx : Type 0} where
  follow-KeepsFlag :
      (node : Node Tx) (block : RpcBlock Tx) (core : Core) → KeepsFlag core (follow node block core)
  unfolding crawl
  follow-KeepsFlag node block core = go (get_addresses node block.tx) refl
    where
      go :
          (r : Result (List Text))
          → get_addresses node block.tx ≡ r
          → KeepsFlag core (follow node block core)
      go (ok addresses) e =
          subst (KeepsFlag core) (sym (follow-ok node block core addresses e))
            (add_addresses_flag block.height addresses core)
      go (err thrown) e = subst (KeepsFlag core) (sym (follow-err node block core thrown e)) refl

  advance-KeepsFlag :
      (node : Node Tx) (last : Option (Schema CrawledBlock)) (block : RpcBlock Tx) (core : Core)
      → KeepsFlag core (advance node last block core)
  unfolding advance
  advance-KeepsFlag node none block core = follow-KeepsFlag node block core
  advance-KeepsFlag node (some d) block core =
      elim (Bool-cases (same_text d.payload.hash block.previousblockhash)) [
        | inl e ↦
            subst (KeepsFlag core) (sym (advance_same node block core d e))
              (follow-KeepsFlag node block core)
        | inr e ↦
            subst (KeepsFlag core) (sym (advance_other node block core d e))
              (invalidate_flag d core)
      ]

  proceed-KeepsFlag :
      (node : Node Tx) (last : Option (Schema CrawledBlock)) (r : Result (Option (RpcBlock Tx)))
      (core : Core)
      → KeepsFlag core (proceed node last r core)
  unfolding proceed
  proceed-KeepsFlag node last (err e) core = refl
  proceed-KeepsFlag node last (ok none) core = tt
  proceed-KeepsFlag node last (ok (some block)) core = advance-KeepsFlag node last block core

  catch_up-KeepsFlag : (nodes : List (Node Tx)) (core : Core) → KeepsFlag core (catch_up nodes core)
  unfolding catch_up catch_up_round
  catch_up-KeepsFlag [] core = refl
  catch_up-KeepsFlag (node ∷ nodes) core =
      go (catch_up_round node core) refl
        (proceed-KeepsFlag node (get_crawled_tip core)
          (get_block node (next_height (get_crawled_tip core))) core)
        (λ core'. catch_up-KeepsFlag nodes core')
    where
      KeepsFlag-trans :
          (core' : Core) (o : Outcome)
          → core'.is_catching_up ≡ core.is_catching_up
          → KeepsFlag core' o
          → KeepsFlag core o
      KeepsFlag-trans core' (running last) e k = k ∙ e
      KeepsFlag-trans core' (stopped last) e k = tt
      KeepsFlag-trans core' (failed thrown last) e k = k ∙ e

      go :
          (r : Outcome)
          → catch_up_round node core ≡ r
          → KeepsFlag core r
          → ((core' : Core) → KeepsFlag core' (catch_up nodes core'))
          → KeepsFlag core (catch_up (node ∷ nodes) core)
      go (running core') e k more =
          subst (KeepsFlag core) (sym (catch_up_running node nodes core core' e))
            (KeepsFlag-trans core' (catch_up nodes core') k (more core'))
      go (stopped core') e k more =
          subst (KeepsFlag core) (sym (catch_up_stopped node nodes core core' e)) tt
      go (failed thrown core') e k more =
          subst (KeepsFlag core) (sym (catch_up_failed node nodes core core' thrown e)) k

  -- Where a call that a catch-up makes throws, `start` does nothing from then on, whatever the node
  -- answers.
  pub start_failed :
      (nodes later : List (Node Tx)) (core core' : Core) (thrown : Error)
      → core.is_catching_up ≡ false
      → catch_up nodes (record core { is_catching_up = true }) ≡ failed thrown core'
      → start later (start nodes core) ≡ start nodes core
  unfolding start
  start_failed nodes later core core' thrown off e =
      let begun : Core = record core { is_catching_up = true } in
      let on : core'.is_catching_up ≡ true =
        subst (KeepsFlag begun) e (catch_up-KeepsFlag nodes begun) in
      rw (off, e, on)
