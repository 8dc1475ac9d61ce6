-- ===== src/Alarm/Store/Counts.antt =====
-- How an update of the rows moves the events that they count and the open rows of a key.
use vpp_backend.Prelude.{
  ℕ, ◌+◌, ◌≤◌, ◌+ℤ◌, pos_part, neg_part, ◌≡◌, refl, String, is_blank, Bool, true, false, none, List,
  [], ◌∷◌, All, count, arith,
}
use vpp_backend.Prelude.Rows.{update_where}
use vpp_backend.Alarm.{
  Time, Status, status_open, status_acknowledged, status_closed, status_other, Decision, Alarm,
  opened,
}
use vpp_backend.Alarm.Lifecycle.{rank, Marked}
use vpp_backend.Alarm.Store.{
  is_closed, is_open, is_unclosed, inserted, merged, acknowledged_row, closed_row,
}

pub open_unclosed : (s : Status) → is_open s ≡ true → is_closed s ≡ false
open_unclosed status_open h = refl
open_unclosed status_acknowledged h = refl
open_unclosed status_closed h = cc
open_unclosed (status_other s) h = refl

unclosed_rank : (s : Status) → is_unclosed s ≡ true → rank s ≤ 1
unclosed_rank status_open h = omega arith
unclosed_rank status_acknowledged h = omega arith
unclosed_rank status_closed h = cc
unclosed_rank (status_other s) h = cc

module _ {P : Type 0} where
  -- The events that the rows count.
  abbrev pub events : List (Alarm P) → ℕ
  events [] = 0
  events (a ∷ rows) = pos_part a.count + events rows

  -- A row counts its events, and its version counts them and the steps of its status.
  pub record RowInv (a : Alarm P) : Type 0 where
    pub whole : neg_part a.count ≡ 0
    pub whole_version : neg_part a.version ≡ 0
    pub some_event : 1 ≤ pos_part a.count
    pub enough : pos_part a.count ≤ pos_part a.version
    pub few : pos_part a.version ≤ pos_part a.count + rank a.status
    pub marked : Marked a.status a

  pub inserted-RowInv : (id : String) (d : Decision P) → RowInv (inserted id d)
  unfolding inserted opened
  inserted-RowInv id d = record {
    whole = refl;
    whole_version = refl;
    some_event = omega arith;
    enough = omega arith;
    few = omega arith;
    marked = (refl, refl);
  }

  merged-Marked : (d : Decision P) (a : Alarm P) (s : Status) → Marked s a → Marked s (merged d a)
  unfolding merged
  merged-Marked d a status_open h = h
  merged-Marked d a status_acknowledged h = h
  merged-Marked d a status_closed h = h
  merged-Marked d a (status_other s) h = h

  pub merged-RowInv : (d : Decision P) (a : Alarm P) → RowInv a → RowInv (merged d a)
  unfolding merged ◌+ℤ◌
  merged-RowInv d a h =
      let whole = h.whole in
      let whole_version = h.whole_version in
      let some_event = h.some_event in
      let enough = h.enough in
      let few = h.few in
      record {
        whole = ground arith;
        whole_version = ground arith;
        some_event = ground arith;
        enough = ground arith;
        few = ground arith;
        marked = merged-Marked d a a.status h.marked;
      }

  opened_marks :
      (s : Status) (a : Alarm P)
      → is_open s ≡ true
      → Marked s a
      → (rank s ≡ 0) × (a.closed_at ≡ none)
  opened_marks status_open a h m = (refl, m.1)
  opened_marks status_acknowledged a h m = cc
  opened_marks status_closed a h m = cc
  opened_marks (status_other s) a h m = cc

  pub acknowledged_row-RowInv :
      (actor : String) (at : Time) (a : Alarm P)
      → is_blank actor ≡ false
      → is_open a.status ≡ true
      → RowInv a
      → RowInv (acknowledged_row actor at a)
  unfolding ◌+ℤ◌
  acknowledged_row-RowInv actor at a named h r =
      let whole_version = r.whole_version in
      let enough = r.enough in
      let (before, open_marks) = opened_marks a.status a h r.marked in
      let few = r.few in
      record {
        whole = r.whole;
        whole_version = ground arith;
        some_event = r.some_event;
        enough = ground arith;
        few = ground arith;
        marked = ((at, refl), named, open_marks);
      }

  pub closed_row-RowInv :
      (actor : String) (at : Time) (a : Alarm P)
      → is_blank actor ≡ false
      → is_unclosed a.status ≡ true
      → RowInv a
      → RowInv (closed_row actor at a)
  unfolding ◌+ℤ◌
  closed_row-RowInv actor at a named h r =
      let whole_version = r.whole_version in
      let enough = r.enough in
      let before = unclosed_rank a.status h in
      let few = r.few in
      record {
        whole = r.whole;
        whole_version = ground arith;
        some_event = r.some_event;
        enough = ground arith;
        few = ground arith;
        marked = ((at, refl), named);
      }

  -- Rows with a new form count as before when each does.
  pub events-update_where :
      (test : Alarm P → Bool) (f : Alarm P → Alarm P) (rows : List (Alarm P))
      → ((a : Alarm P) → pos_part (f a).count ≡ pos_part a.count)
      → events (update_where test f rows) ≡ events rows
  unfolding update_where
  events-update_where test f [] h = refl
  events-update_where test f (a ∷ rows) h = ground (arith, events-update_where test f rows h, h a)

  -- Each row that the event is merged into counts one more.
  pub events-merged :
      (test : Alarm P → Bool) (d : Decision P) (rows : List (Alarm P))
      → All RowInv rows
      → events (update_where test (merged d) rows) ≡ count test rows + events rows
  unfolding update_where merged ◌+ℤ◌
  events-merged test d [] h = refl
  events-merged test d (a ∷ rows) h =
      let whole = h.0.whole in ground (arith, events-merged test d rows h.1)

  -- Rows that are changed to pass a test less often.
  pub count-update_where-le :
      (p test : Alarm P → Bool) (f : Alarm P → Alarm P) (rows : List (Alarm P))
      → ((a : Alarm P) → test a ≡ true → p (f a) ≡ true → p a ≡ true)
      → count p (update_where test f rows) ≤ count p rows
  unfolding update_where
  count-update_where-le p test f [] h = omega arith
  count-update_where-le p test f (a ∷ rows) h =
      ground (arith, count-update_where-le p test f rows h, h a)
