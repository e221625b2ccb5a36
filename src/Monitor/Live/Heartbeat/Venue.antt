-- ===== src/Monitor/Live/Heartbeat/Venue.antt =====
-- What the Kalshi connection holds, from what was sent on it, and what teardown leaves of the routes.
use cross_arb.Prelude.{
  ℕ, ◌≡◌, refl, ap, ◌∙◌, Bool, true, false, not, ◌&&◌, ◌||◌, List, [], ◌∷◌, ◌++◌, String, ◌=?◌,
  string_keys, elem, Dict, lookup, erase, lookup-erase, contains, is_some, if◌then◌else◌, arith,
}
use cross_arb.Kalshi.Book.{KalshiBook}
use cross_arb.Monitor.Housekeeping.Teardown.{Live, teardown, tickers, lookup-erase_all}
use cross_arb.Monitor.Live.Registry.{Closure}
use cross_arb.Monitor.Live.Registry.Report.{elem-append}
use cross_arb.Monitor.Live.Sockets.{
  Sent, subscribe_pm, subscribe_k, update_k, close_k, SubCmd, subscribe_shards,
}
use cross_arb.Monitor.Live.Heartbeat.{teardown_all, tickers_of}

-- An `add_markets` merges, and a `delete_markets` silences.
abbrev pub merged : String → SubCmd → Bool → Bool
merged tk cmd b =
    if cmd.action =? "add_markets"
    then elem tk cmd.market_tickers || b
    else not (elem tk cmd.market_tickers) && b

-- Whether the venue's Kalshi connection sends frames of a ticker, after what was sent to it.
abbrev pub venue : String → Bool → List Sent → Bool
venue tk b [] = b
venue tk b (subscribe_pm ss ∷ out) = venue tk b out
venue tk b (subscribe_k tks ∷ out) = venue tk (elem tk tks || b) out
venue tk b (update_k cmd ∷ out) = venue tk (merged tk cmd b) out
venue tk b (close_k ∷ out) = venue tk false out

abbrev pub closed : List Sent → Bool
closed [] = false
closed (close_k ∷ out) = true
closed (_ ∷ out) = closed out

pub venue-append :
    (tk : String) (b : Bool) (xs ys : List Sent)
    → venue tk b (xs ++ ys) ≡ venue tk (venue tk b xs) ys
venue-append tk b [] ys = refl
venue-append tk b (subscribe_pm ss ∷ xs) ys = venue-append tk b xs ys
venue-append tk b (subscribe_k tks ∷ xs) ys = venue-append tk (elem tk tks || b) xs ys
venue-append tk b (update_k cmd ∷ xs) ys = venue-append tk (merged tk cmd b) xs ys
venue-append tk b (close_k ∷ xs) ys = venue-append tk false xs ys

pub closed-append : (xs ys : List Sent) → closed (xs ++ ys) ≡ (closed xs || closed ys)
closed-append [] ys = refl
closed-append (subscribe_pm ss ∷ xs) ys = closed-append xs ys
closed-append (subscribe_k tks ∷ xs) ys = closed-append xs ys
closed-append (update_k cmd ∷ xs) ys = closed-append xs ys
closed-append (close_k ∷ xs) ys = refl

pub venue-subscribe_shards :
    (tk : String) (b : Bool) (xss : List (List String)) → venue tk b (subscribe_shards xss) ≡ b
venue-subscribe_shards tk b [] = refl
venue-subscribe_shards tk b (xs ∷ xss) = venue-subscribe_shards tk b xss

pub dead_either :
    (slug_k : Dict String (List String)) (slug tk : String) (slugs : List String)
    → (elem tk (tickers (lookup slug slug_k)) || elem tk (tickers_of (erase slug slug_k) slugs))
      ≡ (elem tk (tickers (lookup slug slug_k)) || elem tk (tickers_of slug_k slugs))
dead_either slug_k slug tk [] = refl
dead_either slug_k slug tk (s ∷ slugs) = ground (
  arith,
  elem-append tk (tickers (lookup s slug_k)) (tickers_of slug_k slugs),
  elem-append tk (tickers (lookup s (erase slug slug_k))) (tickers_of (erase slug slug_k) slugs),
  lookup-erase slug s slug_k,
  string_keys.beq_iff slug s,
  dead_either slug_k slug tk slugs,
)

module _ {S D : Type 0} where
  -- A freed market's tickers have no closure, and all others keep theirs.
  pub contains-teardown_all :
      (slugs : List String) (l : Live Closure Closure KalshiBook ℕ S D) (tk : String)
      → contains tk (teardown_all slugs l).k_targets
        ≡ (not (elem tk (tickers_of l.slug_k slugs)) && contains tk l.k_targets)
  unfolding teardown_all teardown
  contains-teardown_all [] l tk = refl
  contains-teardown_all (slug ∷ slugs) l tk =
      contains-teardown_all slugs (teardown l slug) tk
      ∙ ground (
        arith,
        ap is_some (lookup-erase_all (tickers (lookup slug l.slug_k)) tk l.k_targets),
        elem-append tk (tickers (lookup slug l.slug_k)) (tickers_of l.slug_k slugs),
        dead_either l.slug_k slug tk slugs,
      )
