-- ===== src/Mountfs/Node/Opening.antt =====
-- Who gets a stub from `Open`, and with which flags.
use mediastub.Prelude.{
  ℕ, ◌%◌, ◌==◌, ◌≡◌, refl, sym, subst, Bool, true, false, Option, none, some, Bool-cases, inl, inr,
  arith,
}
use mediastub.Prelude.Int.{ℤ}
use mediastub.Core.Plan.{Plan}
use mediastub.Origin.{Object}
use mediastub.Syncer.Base.{Entry}
use mediastub.Mountfs.Base.{Error, Result, ok, err, erofs}
use mediastub.Mountfs.Cache.{Service, stub_candidate, Decision}
use mediastub.Mountfs.View.{
  View, plan_view, origin_view, Opened, opened, not_opened, pass_through, open_view,
}
use mediastub.Mountfs.Node.{
  Node, World, current_entry, OpenReply, open_file, open_refused, direct_io, keep_cache, reply_of,
  is_allowed, opened_with, open_node,
}

module _ (service : Service) (log_all : Bool) (matched : Result Bool) (decide : Entry → Decision)
    (open_object : Entry → Opened) (e : Entry) where
  -- An answer of `Open` for an entry: a stub that bypasses the cache of the kernel, or the object.
  pub data IsGuarded : OpenReply → Type 1 where
    stub :
        (p : Plan)
        → stub_candidate service e ≡ true
        → matched ≡ ok true
        → (decide e).error ≡ none
        → (decide e).plan ≡ some p
        → IsGuarded (open_file (plan_view p) direct_io)
    through :
        (object : Object) (s : object.State)
        → open_object e ≡ opened object s
        → IsGuarded (open_file (origin_view object s e.size) keep_cache)
    refused : {n : _} → IsGuarded (open_refused n)

  through-IsGuarded : (o : Opened) → open_object e ≡ o → IsGuarded (reply_of (pass_through e o))
  unfolding pass_through
  through-IsGuarded (opened object s) h = through object s h
  through-IsGuarded (not_opened cause) h = refused

  is_allowed_both :
      is_allowed service log_all e matched ≡ true
      → (stub_candidate service e ≡ true) × (matched ≡ ok true)
  is_allowed_both h = by_match matched h
    where
      by_match :
          (m : Result Bool)
          → is_allowed service log_all e m ≡ true
          → (stub_candidate service e ≡ true) × (m ≡ ok true)
      by_match (ok true) h = ground (arith, h)
      by_match (ok false) h = ground (arith, h)
      by_match (err cause) h = ground (arith, h)

  open_view-IsGuarded :
      (allowed : Bool)
      → allowed ≡ is_allowed service log_all e matched
      → IsGuarded (reply_of (open_view e allowed (decide e) (open_object e)))
  unfolding open_view
  open_view-IsGuarded false h = through-IsGuarded (open_object e) refl
  open_view-IsGuarded true h = by_decision (decide e).error (decide e).plan refl refl
    where
      by_decision :
          (error : Option Error) (plan : Option Plan)
          → (decide e).error ≡ error
          → (decide e).plan ≡ plan
          → IsGuarded
              (reply_of (open_view e true (record { plan = plan; error = error }) (open_object e)))
      by_decision (some cause) plan he hp = refused
      by_decision none none he hp = through-IsGuarded (open_object e) refl
      by_decision none (some p) he hp =
          stub p (is_allowed_both (sym h)).0 (is_allowed_both (sym h)).1 he hp

module _ (service : Service) (attr_ttl : ℤ) (world : World) (log_all : Bool) (matched : Result Bool)
    (decide : Entry → Decision) (open_object : Entry → Opened) (n : Node) where
  -- `Open` for reading gives an error number; or, for the entry of the node, a stub with direct I/O or
  -- the object itself with the cache of the kernel. A stub is given for the plan that `decide`
  -- returned, for an entry that may be a stub, and to a process that was matched, and to no other.
  pub open_node-IsGuarded :
      (flags : ℕ) (view : View) (open_flags : ℕ)
      → (open_node service attr_ttl world flags log_all matched decide open_object n).0
        ≡ open_file view open_flags
      → (e : Entry) × ((current_entry attr_ttl world n).0 ≡ ok e)
        × (flags % 4 ≡ 0)
        × IsGuarded service log_all matched decide open_object e (open_file view open_flags)
  unfolding open_node
  open_node-IsGuarded flags view open_flags h = elim (Bool-cases (flags % 4 == 0)) [
    | inr q ↦ absurd (not_refused (rw q at h))
    | inl q ↦ by_entry (current_entry attr_ttl world n) (ground (arith, q)) refl (rw q at h)
  ]
    where
      not_refused : open_refused erofs ≡ open_file view open_flags → ⊥
      not_refused q = cc

      by_entry :
          (r : Result Entry × Node)
          → flags % 4 ≡ 0
          → (current_entry attr_ttl world n).0 ≡ r.0
          → (opened_with service attr_ttl world log_all matched decide open_object r).0
            ≡ open_file view open_flags
          → (e : Entry) × ((current_entry attr_ttl world n).0 ≡ ok e)
            × (flags % 4 ≡ 0)
            × IsGuarded service log_all matched decide open_object e (open_file view open_flags)
      by_entry (err cause, n') reading g q = absurd cc
      by_entry (ok e, n') reading g q = (
        e,
        g,
        reading,
        subst (λ a. IsGuarded service log_all matched decide open_object e a) q
            (open_view-IsGuarded service log_all matched decide open_object e
              (is_allowed service log_all e matched) refl),
      )
