-- ===== src/Latency/Trajectory.antt =====
-- `build_trajectories` and `edge_at` of scripts/shadow_fill.py. The episodes are objects that the index by market
-- shares with the list, so the index holds their places in the list.
use cross_arb.Prelude.{
  ℕ, zero, suc, Bool, true, false, ◌&&◌, Option, none, some, List, [], ◌∷◌, ◌++◌, map, String,
  string_keys, Dict, lookup, insert, sort_by, if◌then◌else◌,
}
use cross_arb.Prelude.Int.{ℤ, ltb_ℤ, leb_ℤ}
use cross_arb.Monitor.Edge.{Transition, flipped, widened, narrowed}
use cross_arb.Persistence.Episodes.{Episode, LogRecord}

-- An episode with its `traj` and its `flip_ts`.
pub record Traced : Type 0 where
  pub ep : Episode
  pub traj : List (ℤ × ℤ)
  pub flip_ts : List ℤ

-- `CONT`
abbrev pub is_cont : Transition → Bool
is_cont widened = true
is_cont narrowed = true
is_cont flipped = true
is_cont _ = false

abbrev is_flip : Transition → Bool
is_flip flipped = true
is_flip _ = false

abbrev pub seed_traj : Episode → Traced
seed_traj e = record { ep = e; traj = (e.open_t, e.open_net) ∷ []; flip_ts = [] }

-- `es[i]`
abbrev pub get_elem? : {A : Type 0} → List A → ℕ → Option A
get_elem? [] i = none
get_elem? (x ∷ xs) zero = some x
get_elem? (x ∷ xs) (suc i) = get_elem? xs i

abbrev pub change_at : {A : Type 0} → (A → A) → List A → ℕ → List A
change_at f [] i = []
change_at f (x ∷ xs) zero = f x ∷ xs
change_at f (x ∷ xs) (suc i) = x ∷ change_at f xs i

abbrev pub Index : Type 0
Index = Dict String (List ℕ)

abbrev places : Option (List ℕ) → List ℕ
places none = []
places (some is) = is

-- `by_mkt.setdefault(e["market"], []).append(e)`
unfoldable pub index : List Episode → ℕ → Index → Index
index [] i d = d
index (e ∷ es) i d = index es (suc i) (insert e.market (places (lookup e.market d) ++ i ∷ []) d)

abbrev open_of : Option Traced → Option ℤ
open_of none = none
open_of (some e) = some e.ep.open_t

abbrev not_later : Option ℤ → Option ℤ → Bool
not_later (some t) (some u) = leb_ℤ t u
not_later _ _ = true

-- `es.sort(key=lambda e: e["open_t"])`
abbrev by_open_t : List Traced → ℕ → ℕ → Bool
by_open_t objects i j = not_later (open_of (get_elem? objects i)) (open_of (get_elem? objects j))

unfoldable pub sort_places : List Traced → Index → Index
sort_places objects [] = []
sort_places objects ((m, is) ∷ d) = (m, sort_by (by_open_t objects) is) ∷ sort_places objects d

abbrev spans : ℤ → Option Traced → Bool
spans t none = false
spans t (some e) = leb_ℤ e.ep.open_t t && leb_ℤ t e.ep.close_t

-- `_find`
unfoldable pub find : List Traced → List ℕ → ℤ → Option ℕ
find objects [] t = none
find objects (i ∷ is) t =
    let rest = find objects is t in if spans t (get_elem? objects i) then some i else rest

-- What a record adds to the episode that it falls in, if it is strictly after its OPEN.
abbrev extend : LogRecord → Traced → Traced
extend r e = if leb_ℤ r.t e.ep.open_t then e else record e {
  traj = e.traj ++ (r.t, r.net_edge) ∷ [];
  flip_ts = if is_flip r.transition then e.flip_ts ++ r.t ∷ [] else e.flip_ts;
}

abbrev extend_at : LogRecord → List Traced → Option ℕ → List Traced
extend_at r objects none = objects
extend_at r objects (some i) = change_at (extend r) objects i

-- The loop over the records.
unfoldable pub attach : Index → List LogRecord → List Traced → List Traced
unfolding find
attach d [] objects = objects
attach d (r ∷ rs) objects =
    let objects' = extend_at r objects (find objects (places (lookup r.market d)) r.t) in
    attach d rs (if is_cont r.transition then objects' else objects)

abbrev by_time : ℤ × ℤ → ℤ × ℤ → Bool
by_time (t, v) (u, w) = leb_ℤ t u

abbrev sort_traj : Traced → Traced
sort_traj e = record e { traj = sort_by by_time e.traj }

unfoldable pub build_trajectories : List LogRecord → List Episode → List Traced
unfolding index sort_places attach
build_trajectories records episodes =
    let objects = map seed_traj episodes in
    map sort_traj (attach (sort_places objects (index episodes 0 [])) records objects)

-- The loop of `edge_at`, up to the first point after `x`.
unfoldable pub last_net : ℤ → ℤ → List (ℤ × ℤ) → ℤ
last_net x net [] = net
last_net x net ((t, v) ∷ ps) = let rest = last_net x v ps in if leb_ℤ t x then rest else net

-- `ep["traj"][0][1]`; a trajectory is never empty.
abbrev pub first_net : List (ℤ × ℤ) → Option ℤ
first_net [] = none
first_net ((t, v) ∷ ps) = some v

abbrev pub net_from : ℤ → List (ℤ × ℤ) → Option ℤ → Option ℤ
net_from x ps none = none
net_from x ps (some v) = some (last_net x v ps)

unfoldable pub edge_at : Traced → ℤ → Option ℤ
unfolding last_net
edge_at e x =
    if ltb_ℤ x e.ep.open_t
    then none
    else if leb_ℤ e.ep.close_t x
    then none
    else net_from x e.traj (first_net e.traj)
