-- ===== src/Mountfs/Node/Freshness.antt =====
-- How old the entry of a node can be.
use mediastub.Prelude.{
  ◌≡◌, ◌⊎◌, inl, inr, refl, sym, subst, ap, ◌∙◌, false, Option, none, some, List, [], ◌∷◌,
  Bool-cases,
}
use mediastub.Prelude.Int.{ℤ, ◌+ℤ◌, ltb_ℤ}
use mediastub.Core.Base.{Bytes}
use mediastub.Syncer.Base.{Entry}
use mediastub.Mountfs.Base.{Error, Result, ok, err}
use mediastub.Mountfs.Node.{
  Node, CachedEntry, World, is_fresh, cached_stat, cache_stat, fetched, entry_from, current_entry,
  readdir, listing_of, cache_children,
}
use mediastub.Mountfs.Cache.Evict.{some_injective}

-- What is done to a node, the latest first: its entry is asked for, by `Getattr` or by `Open`, or it
-- is listed.
pub data Call : Type 0 where
  asked listed : World → Call

-- A node after some calls.
unfoldable pub after_calls : ℤ → Node → List Call → Node
after_calls attr_ttl n [] = n
after_calls attr_ttl n (asked world ∷ calls) =
    (current_entry attr_ttl world (after_calls attr_ttl n calls)).1
after_calls attr_ttl n (listed world ∷ calls) =
    (readdir attr_ttl world (after_calls attr_ttl n calls)).1

-- The origin answered with the entry in one of the calls, whose time was over at the deadline.
pub data Answered (attr_ttl : ℤ) (path : Bytes) (e : Entry) (deadline : ℤ)
    : List Call → Type 0 where
  now :
      {calls : List Call} (world : World)
      → world.stat path ≡ ok e
      → world.filled_at +ℤ attr_ttl ≡ deadline
      → Answered attr_ttl path e deadline (asked world ∷ calls)
  before :
      {calls : List Call} (call : Call)
      → Answered attr_ttl path e deadline calls
      → Answered attr_ttl path e deadline (call ∷ calls)

ok_injective : {a b : Entry} → ◌≡◌ {A = Result Entry} (ok a) (ok b) → a ≡ b
ok_injective q = cc

module _ (attr_ttl : ℤ) where
  -- The entry of a node has its path, and comes from one of the calls.
  record IsTraced (path : Bytes) (calls : List Call) (n : Node) : Type 0 where
    same_path : n.path ≡ path
    traced : (c : CachedEntry) → n.entry ≡ some c → Answered attr_ttl path c.entry c.deadline calls

  -- An entry is that of the cache, whose time is not over, or the origin's.
  data IsCurrent (world : World) (n : Node) : Result Entry × Node → Type 0 where
    kept :
        (c : CachedEntry)
        → n.entry ≡ some c
        → ltb_ℤ c.deadline world.asked_at ≡ false
        → IsCurrent world n (ok c.entry, n)
    asked_for :
        (e : Entry)
        → world.stat n.path ≡ ok e
        → IsCurrent world n (ok e, cache_stat e (world.filled_at +ℤ attr_ttl) n)
    missing : {cause : Error} → IsCurrent world n (err cause, n)

  fetched-IsCurrent :
      (world : World) (n : Node) (r : Result Entry)
      → world.stat n.path ≡ r
      → IsCurrent world n (fetched attr_ttl world n r)
  fetched-IsCurrent world n (ok e) h = asked_for e h
  fetched-IsCurrent world n (err cause) h = missing

  current_entry-IsCurrent :
      (world : World) (n : Node) → IsCurrent world n (current_entry attr_ttl world n)
  unfolding current_entry cached_stat
  current_entry-IsCurrent world n = by_cache n.entry refl
    where
      by_cache :
          (o : Option CachedEntry)
          → n.entry ≡ o
          → IsCurrent world n (entry_from attr_ttl world n (is_fresh world.asked_at o))
      by_cache none h = fetched-IsCurrent world n (world.stat n.path) refl
      by_cache (some c) h = elim (Bool-cases (ltb_ℤ c.deadline world.asked_at)) [
        | inl late ↦ rw late (fetched-IsCurrent world n (world.stat n.path) refl)
        | inr early ↦ rw early (kept c h early)
      ]

  asked-IsTraced :
      (path : Bytes) (calls : List Call) (world : World) (n : Node) (r : Result Entry × Node)
      → IsCurrent world n r
      → IsTraced path calls n
      → IsTraced path (asked world ∷ calls) r.1
  asked-IsTraced path calls world n _ (kept c h q) t = record {
    same_path = t.same_path;
    traced = λ d g. before (asked world) (t.traced d g);
  }
  asked-IsTraced path calls world n _ (asked_for e h) t = record {
    same_path = t.same_path;
    traced = λ d g.
        subst (λ c. Answered attr_ttl path c.entry c.deadline (asked world ∷ calls))
          (some_injective g) (now world (ap world.stat (sym t.same_path) ∙ h) refl);
  }
  asked-IsTraced path calls world n _ missing t = record {
    same_path = t.same_path;
    traced = λ d g. before (asked world) (t.traced d g);
  }

  listed-IsTraced :
      (path : Bytes) (calls : List Call) (world : World) (n : Node) (r : Result (List Entry))
      → IsTraced path calls n
      → IsTraced path (listed world ∷ calls) (listing_of attr_ttl world n r).1
  unfolding cache_children
  listed-IsTraced path calls world n (ok es) t = record {
    same_path = t.same_path;
    traced = λ d g. before (listed world) (t.traced d g);
  }
  listed-IsTraced path calls world n (err cause) t = record {
    same_path = t.same_path;
    traced = λ d g. before (listed world) (t.traced d g);
  }

  after_calls-IsTraced :
      (n : Node) (calls : List Call)
      → n.entry ≡ none
      → IsTraced n.path calls (after_calls attr_ttl n calls)
  unfolding after_calls readdir
  after_calls-IsTraced n [] h = record { same_path = refl; traced = λ c g. absurd cc }
  after_calls-IsTraced n (asked world ∷ calls) h =
      asked-IsTraced n.path calls world (after_calls attr_ttl n calls) _
        (current_entry-IsCurrent world (after_calls attr_ttl n calls))
        (after_calls-IsTraced n calls h)
  after_calls-IsTraced n (listed world ∷ calls) h =
      listed-IsTraced n.path calls world (after_calls attr_ttl n calls)
        (world.read_dir (after_calls attr_ttl n calls).path) (after_calls-IsTraced n calls h)

  -- After any calls on a node that had no entry, an entry that `Getattr` or `Open` uses was answered
  -- by the origin for the node's path: in this call, or in an earlier one whose time is not over when
  -- this call looks at the clock.
  pub current_entry-Answered :
      (n : Node) (calls : List Call) (world : World) (e : Entry)
      → n.entry ≡ none
      → (current_entry attr_ttl world (after_calls attr_ttl n calls)).0 ≡ ok e
      → (world.stat n.path ≡ ok e)
        ⊎ ((deadline : ℤ) × Answered attr_ttl n.path e deadline calls
            × (ltb_ℤ deadline world.asked_at ≡ false))
  current_entry-Answered n calls world e h =
      by_answer _ (current_entry-IsCurrent world (after_calls attr_ttl n calls))
    where
      by_answer :
          (r : Result Entry × Node)
          → IsCurrent world (after_calls attr_ttl n calls) r
          → r.0 ≡ ok e
          → (world.stat n.path ≡ ok e)
            ⊎ ((deadline : ℤ) × Answered attr_ttl n.path e deadline calls
                × (ltb_ℤ deadline world.asked_at ≡ false))
      by_answer _ (kept c g early) q = inr (
        c.deadline,
        subst (λ f. Answered attr_ttl n.path f c.deadline calls) (ok_injective q)
            ((after_calls-IsTraced n calls h).traced c g),
        early,
      )
      by_answer _ (asked_for f g) q = inl (
          ap world.stat (sym (after_calls-IsTraced n calls h).same_path)
          ∙ g
          ∙ ap ok (ok_injective q))
      by_answer _ missing q = absurd cc
