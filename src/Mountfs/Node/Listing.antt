-- ===== src/Mountfs/Node/Listing.antt =====
-- A lookup of a name after a listing of the directory, and the numbers of inodes.
use mathlib.Core.Logic.Or
use mathlib.Core.List.{Mem, Perm, mem-cons, not-mem-nil}
use mathlib.Core.List.Perm
use mediastub.Prelude.{
  sym, ◌≡◌, refl, subst, ap, ◌∙◌, true, false, Option, none, some, List, [], ◌∷◌, if◌then◌else◌,
  Bool-cases, inl, inr,
}
use mediastub.Prelude.Int.{ℤ, ◌+ℤ◌, ltb_ℤ}
use mediastub.Prelude.Maps.{
  Map, lookup, insert, same, same_sound, same_refl, lookup-insert, lookup-insert_other,
}
use mediastub.Core.Base.{Bytes}
use mediastub.Syncer.Base.{Entry}
use mediastub.Mountfs.Base.{ok}
use mediastub.Mountfs.Node.{
  Node, CachedEntry, World, is_fresh, cached_child, child_entries, cache_children, Reply, new_child,
  child_of, lookup_from, child_path, listing_of, lookup_child, readdir,
}
use mediastub.Mountfs.Attributes.{Attr}

-- The first that there is
abbrev or_else : {A : Type 0} → Option A → Option A → Option A
or_else (some a) o = some a
or_else none o = o

abbrev named : Bytes → Entry → Option Entry
named name e = if same name e.name then some e else none

-- The last entry of a listing that has a name.
pub last_named : Bytes → List Entry → Option Entry
last_named name [] = none
last_named name (e ∷ es) = or_else (last_named name es) (named name e)

-- An entry of a listing with a given name, or that there is none
abbrev pub IsNamed : Bytes → List Entry → Option Entry → Type 0
IsNamed name es none = (e : Entry) → Mem e es → ¬ (name ≡ e.name)
IsNamed name es (some e) = Mem e es × (name ≡ e.name)

IsNamed-cons :
    (name : Bytes) (e : Entry) (es : List Entry) (o : Option Entry)
    → IsNamed name es o
    → IsNamed name (e ∷ es) (or_else o (named name e))
IsNamed-cons name e es (some f) (m, h) = (mem-cons.1 (Or.inr m), h)
IsNamed-cons name e es none h = elim (Bool-cases (same name e.name)) [
  | inl is_name ↦ rw is_name (mem-cons.1 (Or.inl refl), same_sound name e.name is_name)
  | inr other ↦ rw other (λ f m q.
      Or.elim (λ x y. absurd x) (mem-cons.0 m)
        (λ is_e. apart (
          sym (same_refl name)
          ∙ subst (λ k. same name k ≡ false) (sym q)
              (subst (λ g. same name g.name ≡ false) (sym is_e) other)))
        (λ behind. h f behind q))
]
  where
    apart : true ≡ false → ⊥
    apart q = cc

last_named-IsNamed : (name : Bytes) (es : List Entry) → IsNamed name es (last_named name es)
unfolding last_named
last_named-IsNamed name [] = λ e m. absurd (not-mem-nil m)
last_named-IsNamed name (e ∷ es) =
    IsNamed-cons name e es (last_named name es) (last_named-IsNamed name es)

-- A listing in another order
Perm-IsNamed :
    (name : Bytes) (xs es : List Entry) (o : Option Entry)
    → Perm xs es
    → IsNamed name xs o
    → IsNamed name es o
Perm-IsNamed name xs es none p h = λ e m. h e (Perm.subset (Perm.symm p) e m)
Perm-IsNamed name xs es (some e) p (m, h) = (Perm.subset p e m, h)

abbrev cached_as : ℤ → Option Entry → Option CachedEntry
cached_as deadline none = none
cached_as deadline (some e) = some (record { entry = e; deadline = deadline })

lookup-named :
    (name : Bytes) (deadline : ℤ) (e : Entry) (children : Map CachedEntry)
    → lookup name (insert e.name (record { entry = e; deadline = deadline }) children)
      ≡ or_else (cached_as deadline (named name e)) (lookup name children)
lookup-named name deadline e children = elim (Bool-cases (same name e.name)) [
  | inr h ↦
      rw h (lookup-insert_other name e.name (record { entry = e; deadline = deadline }) children h)
  | inl h ↦ rw h (
      ap (λ k. lookup k (insert e.name (record { entry = e; deadline = deadline }) children))
        (same_sound name e.name h)
      ∙ lookup-insert e.name (record { entry = e; deadline = deadline }) children)
]

cached_or_else :
    (deadline : ℤ) (o p : Option Entry) (q : Option CachedEntry)
    → or_else (cached_as deadline o) (or_else (cached_as deadline p) q)
      ≡ or_else (cached_as deadline (or_else o p)) q
cached_or_else deadline (some e) p q = refl
cached_or_else deadline none p q = refl

-- What a map of children holds after a listing.
lookup-child_entries :
    (name : Bytes) (deadline : ℤ) (es : List Entry) (children : Map CachedEntry)
    → lookup name (child_entries deadline es children)
      ≡ or_else (cached_as deadline (last_named name es)) (lookup name children)
unfolding child_entries last_named
lookup-child_entries name deadline [] children = refl
lookup-child_entries name deadline (e ∷ es) children =
    lookup-child_entries name deadline es _
    ∙ ap (or_else (cached_as deadline (last_named name es))) (lookup-named name deadline e children)
    ∙ cached_or_else deadline (last_named name es) (named name e) (lookup name children)

-- What a lookup answers if the listing before it had an entry, or had none.
abbrev pub after_listing : ℤ → World → Bytes → Node → Option Entry → Reply (Attr × Node)
after_listing attr_ttl world name n (some e) = new_child attr_ttl world e
after_listing attr_ttl world name n none =
    lookup_child attr_ttl world name (record n { children = [] })

readdir_then :
    (attr_ttl : ℤ) (world later : World) (n : Node) (es : List Entry) (name : Bytes)
    → world.read_dir n.path ≡ ok es
    → ltb_ℤ (world.filled_at +ℤ attr_ttl) later.asked_at ≡ false
    → lookup_child attr_ttl later name (readdir attr_ttl world n).1
      ≡ after_listing attr_ttl later name n (last_named name (world.sorted es))
unfolding readdir lookup_child cached_child cache_children lookup
readdir_then attr_ttl world later n es name h fresh =
    let deadline = world.filled_at +ℤ attr_ttl in
    let listed = record n { children = child_entries deadline (world.sorted es) [] } in
    ap (λ r. lookup_child attr_ttl later name (listing_of attr_ttl world n r).1) h
    ∙ ap (λ c. lookup_from attr_ttl later name listed (is_fresh later.asked_at c))
        (lookup-child_entries name deadline (world.sorted es) [])
    ∙ by_name (last_named name (world.sorted es)) listed refl
  where
    by_name :
        (o : Option Entry) (listed : Node)
        → listed.path ≡ n.path
        → lookup_from attr_ttl later name listed (
            is_fresh later.asked_at
              (or_else (cached_as (world.filled_at +ℤ attr_ttl) o) (lookup name [])))
          ≡ after_listing attr_ttl later name n o
    by_name (some e) listed q = rw fresh refl
    by_name none listed q =
        ap (λ p. child_of attr_ttl later (later.stat (child_path attr_ttl later p name))) q

-- After a listing that the origin answered, and until its time is over, a lookup of a name that was
-- listed is answered with an entry of that name in the listing, whatever the origin holds by then; and a
-- lookup of another name is answered as if nothing had been listed. Sorting permutes the entries.
pub lookup_child-readdir :
    (attr_ttl : ℤ) (world later : World) (n : Node) (es : List Entry) (name : Bytes)
    → world.read_dir n.path ≡ ok es
    → ((xs : List Entry) → Perm (world.sorted xs) xs)
    → ltb_ℤ (world.filled_at +ℤ attr_ttl) later.asked_at ≡ false
    → (o : Option Entry) × IsNamed name es o
      × (lookup_child attr_ttl later name (readdir attr_ttl world n).1
          ≡ after_listing attr_ttl later name n o)
lookup_child-readdir attr_ttl world later n es name h sorts fresh = (
  last_named name (world.sorted es),
  Perm-IsNamed name (world.sorted es) es _ (sorts es) (last_named-IsNamed name (world.sorted es)),
  readdir_then attr_ttl world later n es name h fresh,
)
