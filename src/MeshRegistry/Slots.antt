-- ===== src/MeshRegistry/Slots.antt =====
-- The abstract view of the entries of mesh/registry.go: for each identity one place, which is vacant,
-- prepared or current.
use qmux.Base.{
  ℕ, sym, ap, ◌∙◌, subst, Option, none, some, List, str_eq, if◌then◌else◌, Bool-cases, inl, inr,
}
use qmux.Base.Tests.{str_eq_sound}
use qmux.Base.Assoc.{
  str_Eq, lookup, insert, erase, Uniq, lookup-insert, lookup-erase, insert-Uniq, erase-Uniq,
}
use qmux.MeshRegistry.State.{
  Name, Entry, Registry, Role, role_unknown, role_client, role_peer, entries, with_entries,
}

pub data Slot : Type 0 where
  vacant : Slot
  holds_prepared holds_current : ℕ → Slot
  holds_both : Slot

abbrev pub slot_of : Option ℕ → Option ℕ → Slot
slot_of none none = vacant
slot_of (some g) none = holds_prepared g
slot_of none (some g) = holds_current g
slot_of (some g) (some h) = holds_both

abbrev pub slot_found : Option Entry → Slot
slot_found none = vacant
slot_found (some e) = slot_of e.prepared e.current

-- The place of a key.
abbrev pub slot_in : List (Name × Entry) → Name → Slot
slot_in m k = slot_found (lookup k m)

-- A place is left as it is, or is emptied.
pub data Falls : Slot → Slot → Type 0 where
  stays : (s : Slot) → Falls s s
  empties : (s : Slot) → Falls s vacant

-- A place changes in one of these ways, and a published generation is never replaced by another.
pub data Move : Slot → Slot → Type 0 where
  falls : {s t : Slot} → Falls s t → Move s t
  prepares : (g : ℕ) → Move vacant (holds_prepared g)
  publishes : (g : ℕ) → Move (holds_prepared g) (holds_current g)

abbrev pub IsClear : Slot → Type 0
IsClear vacant = Unit
IsClear (holds_prepared g) = Unit
IsClear (holds_current g) = Unit
IsClear holds_both = ⊥

pub Falls-trans : {s t u : Slot} → Falls s t → Falls t u → Falls s u
Falls-trans v (stays s) = v
Falls-trans {s} v (empties t) = empties s

pub Falls-IsClear : {s t : Slot} → Falls s t → IsClear s → IsClear t
Falls-IsClear (stays s) c = c
Falls-IsClear (empties s) c = tt

pub Move-IsClear : {s t : Slot} → Move s t → IsClear s → IsClear t
Move-IsClear (falls f) c = Falls-IsClear f c
Move-IsClear (prepares g) c = tt
Move-IsClear (publishes g) c = tt

-- No key stands twice, and no place holds two generations.
pub record IsTidy (m : List (Name × Entry)) : Type 0 where
  pub uniq : Uniq m
  pub clear : (k : Name) → IsClear (slot_in m k)

pub record IsOrderly (r : Registry) : Type 0 where
  pub tidy_clients : IsTidy r.clients
  pub tidy_peers : IsTidy r.peers

-- Every place goes on by `R`.
pub record Table (R : Slot → Slot → Type 0) (m n : List (Name × Entry)) : Type 0 where
  pub uniq : Uniq n
  pub slots : (k : Name) → R (slot_in m k) (slot_in n k)

pub record Goes (R : Slot → Slot → Type 0) (r q : Registry) : Type 0 where
  pub clients : Table R r.clients q.clients
  pub peers : Table R r.peers q.peers

module _ (R : Slot → Slot → Type 0) where
  -- An insertion after other changes.
  pub insert-Table_after :
      (key : Name) (e : Entry) (m n : List (Name × Entry))
      → Table R m n
      → R (slot_in m key) (slot_of e.prepared e.current)
      → Table R m (insert key e n)
  insert-Table_after key e m n t h = record {
    uniq = insert-Uniq key e n t.uniq;
    slots = λ k. elim (Bool-cases (str_eq key k)) [
      | inl hit ↦
          subst (λ o. R (slot_in m k) (slot_found o))
            (sym (lookup-insert key k e n ∙ ap (λ b. if b then some e else lookup k n) hit))
            (subst (λ j. R (slot_in m j) (slot_of e.prepared e.current)) (str_eq_sound key k hit) h)
      | inr miss ↦
          subst (λ o. R (slot_in m k) (slot_found o))
            (sym (lookup-insert key k e n ∙ ap (λ b. if b then some e else lookup k n) miss))
            (t.slots k)
    ];
  }

  pub insert-Table :
      (reflexive : (s : Slot) → R s s) (key : Name) (e : Entry) (m : List (Name × Entry))
      → IsTidy m
      → R (slot_in m key) (slot_of e.prepared e.current)
      → Table R m (insert key e m)
  insert-Table reflexive key e m t h =
      insert-Table_after key e m m (record { uniq = t.uniq; slots = λ k. reflexive (slot_in m k) })
        h

  pub erase-Table :
      (reflexive : (s : Slot) → R s s) (key : Name) (m : List (Name × Entry))
      → IsTidy m
      → R (slot_in m key) vacant
      → Table R m (erase key m)
  erase-Table reflexive key m t h = record {
    uniq = erase-Uniq key m t.uniq;
    slots = λ k. elim (Bool-cases (str_eq key k)) [
      | inl hit ↦
          subst (λ o. R (slot_in m k) (slot_found o))
            (sym (
              lookup-erase key k m t.uniq
              ∙ ap {B = Option Entry} (λ b. if b then none else lookup k m) hit))
            (subst (λ j. R (slot_in m j) vacant) (str_eq_sound key k hit) h)
      | inr miss ↦
          subst (λ o. R (slot_in m k) (slot_found o))
            (sym (
              lookup-erase key k m t.uniq
              ∙ ap {B = Option Entry} (λ b. if b then none else lookup k m) miss))
            (reflexive (slot_in m k))
    ];
  }

  pub Table-refl :
      (reflexive : (s : Slot) → R s s) (m : List (Name × Entry)) → IsTidy m → Table R m m
  Table-refl reflexive m t = record { uniq = t.uniq; slots = λ k. reflexive (slot_in m k) }

  pub with_entries-Goes_after :
      (role : Role) (n : List (Name × Entry)) (r q : Registry)
      → Goes R r q
      → Table R (entries role r) n
      → Goes R r (with_entries role n q)
  with_entries-Goes_after role_unknown n r q v t = v
  with_entries-Goes_after role_client n r q v t = record { clients = t; peers = v.peers }
  with_entries-Goes_after role_peer n r q v t = record { clients = v.clients; peers = t }

  pub Goes-refl : (reflexive : (s : Slot) → R s s) (r : Registry) → IsOrderly r → Goes R r r
  Goes-refl reflexive r v = record {
    clients = Table-refl reflexive r.clients v.tidy_clients;
    peers = Table-refl reflexive r.peers v.tidy_peers;
  }

  pub with_entries-Goes :
      (reflexive : (s : Slot) → R s s) (role : Role) (n : List (Name × Entry)) (r : Registry)
      → IsOrderly r
      → Table R (entries role r) n
      → Goes R r (with_entries role n r)
  with_entries-Goes reflexive role n r v t =
      with_entries-Goes_after role n r r (Goes-refl reflexive r v) t

abbrev pub tables_of : Registry → List (Name × Entry) × List (Name × Entry)
tables_of r = (r.clients, r.peers)

pub entries-IsTidy : (role : Role) (r : Registry) → IsOrderly r → IsTidy (entries role r)
unfolding lookup
entries-IsTidy role_unknown r v = record { uniq = tt; clear = λ k. tt }
entries-IsTidy role_client r v = v.tidy_clients
entries-IsTidy role_peer r v = v.tidy_peers

pub Table-IsTidy :
    {R : Slot → Slot → Type 0} {m n : List (Name × Entry)}
    → ((s t : Slot) → R s t → IsClear s → IsClear t)
    → Table R m n
    → IsTidy m
    → IsTidy n
Table-IsTidy {m} {n} clears t v = record {
  uniq = t.uniq;
  clear = λ k. clears (slot_in m k) (slot_in n k) (t.slots k) (v.clear k);
}
