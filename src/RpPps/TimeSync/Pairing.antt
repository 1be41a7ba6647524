-- ===== src/RpPps/TimeSync/Pairing.antt =====
-- Each edge is paired once at most, and with the seconds in their order.
use pico_gnss.Base.{ℕ, List, [], ◌∷◌, Option, none, some, ◌++◌}
use pico_gnss.RpPps.TimeSync.{
  SyncEpoch, PpsNmeaAssociation, PpsTimeSync, on_pps_edge, set_date, epoch, on_time,
}

-- What a firmware hands over, in the order of its arrival.
pub data Event : Type 0 where
  edge : ℕ → ℕ → Event
  date : ℕ → ℕ → ℕ → Event
  time : ℕ → ℕ → ℕ → Event

pub step : PpsTimeSync → Event → PpsTimeSync × Option SyncEpoch
step s (edge capture query) = (on_pps_edge s capture query, none)
step s (date y m d) = (set_date s y m d, none)
step s (time h mi sec) = on_time s h mi sec

-- The epochs that a sequence of events gives.
pub epochs : PpsTimeSync → List Event → List SyncEpoch
epochs s [] = []
epochs s (e ∷ es) =
    let rest = epochs (step s e).0 es in elim (step s e).1 [ none ↦ rest | some out ↦ out ∷ rest ]

-- The edges of a sequence as pairs of instants, and the one that is pending before it.
pub edges : List Event → List (ℕ × ℕ)
edges [] = []
edges (edge capture query ∷ es) = (capture, query) ∷ edges es
edges (_ ∷ es) = edges es

pub pending_edges : PpsTimeSync → List (ℕ × ℕ)
pending_edges s = elim s.pending [ none ↦ [] | some e ↦ e ∷ [] ]

-- A list that leaves out some items of another.
pub data IsSelected : List (ℕ × ℕ) → List SyncEpoch → Type 0 where
  none_left : IsSelected [] []
  skip :
      {e : ℕ × ℕ} {es : List (ℕ × ℕ)} {os : List SyncEpoch}
      → IsSelected es os
      → IsSelected (e ∷ es) os
  take_one :
      {es : List (ℕ × ℕ)} {os : List SyncEpoch} (o : SyncEpoch)
      → IsSelected es os
      → IsSelected ((o.capture_ns, o.query_ns) ∷ es) (o ∷ os)

nothing-IsSelected : (es : List (ℕ × ℕ)) → IsSelected es []
nothing-IsSelected [] = none_left
nothing-IsSelected (e ∷ es) = skip (nothing-IsSelected es)

-- The epochs carry the instants of edges, each edge in one epoch at most and in the order of the
-- edges.
selected :
    (a : PpsNmeaAssociation) (d : Option (ℕ × ℕ × ℕ)) (p : Option (ℕ × ℕ)) (es : List Event)
    → IsSelected
        (pending_edges (record { association = a; last_date = d; pending = p }) ++ edges es)
        (epochs (record { association = a; last_date = d; pending = p }) es)
unfolding epochs edges pending_edges step on_pps_edge set_date on_time epoch
selected a d none [] = none_left
selected a d (some q) [] = skip none_left
selected a d none (edge c q ∷ es) = selected a d (some (c, q)) es
selected a d (some p) (edge c q ∷ es) = skip (selected a d (some (c, q)) es)
selected a d p (date y m k ∷ es) = selected a (some (y, m, k)) p es
selected a none p (time h mi s ∷ es) = selected a none p es
selected a (some k) none (time h mi s ∷ es) = selected a (some k) none es
selected a (some k) (some p) (time h mi s ∷ es) = take_one _ (selected a (some k) none es)

-- Whatever the order of edges, dates and times, the epochs carry the instants of edges, each edge
-- in one epoch at most, and in the order of the edges.
pub epochs-IsSelected :
    (s : PpsTimeSync) (es : List Event) → IsSelected (pending_edges s ++ edges es) (epochs s es)
epochs-IsSelected s es = selected s.association s.last_date s.pending es
