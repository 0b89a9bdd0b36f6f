-- ===== src/Monitor/Health/Fresh.antt =====
-- The two ways to ask for an executor's health agree.
use task_orchestrator_engine.Prelude.{
  ℕ, ◌≡◌, refl, sym, ap, ◌∙◌, Option, none, some, List, [], ◌∷◌, ◌++◌, map, keep, length, arith,
  if◌then◌else◌,
}
use task_orchestrator_engine.Types.{Ident, Instant, ExecutorHeartbeat}
use task_orchestrator_engine.Monitor.Health.{
  Hashes, get, push_found, read_keys, get_all, within, is_healthy, health_of, refresh_health,
  is_executor_healthy, get_healthy_executor_count, get_all_executor_health,
}

-- The keys whose executors are healthy, each as often as it is listed.
abbrev pub healthy_keys : Instant → Hashes → List Ident → List Ident
healthy_keys now hashes [] = []
healthy_keys now hashes (k ∷ ks) =
    let rest = healthy_keys now hashes ks in
    if is_executor_healthy now k hashes then k ∷ rest else rest

-- The keys of all pages.
abbrev pub all_keys : List (List Ident) → List Ident
all_keys [] = []
all_keys (page ∷ pages) = page ++ all_keys pages

read_keys-append :
    (ks ls : List Ident) (hashes : Hashes)
    → read_keys (ks ++ ls) hashes ≡ read_keys ks hashes ++ read_keys ls hashes
unfolding read_keys
read_keys-append [] ls hashes = refl
read_keys-append (k ∷ ks) ls hashes = go (hashes k) (read_keys-append ks ls hashes)
  where
    go :
        (o : Option ExecutorHeartbeat)
        → read_keys (ks ++ ls) hashes ≡ read_keys ks hashes ++ read_keys ls hashes
        → push_found o (read_keys (ks ++ ls) hashes)
          ≡ push_found o (read_keys ks hashes) ++ read_keys ls hashes
    go none e = e
    go (some h) e = ap (λ l. h ∷ l) e

get_all_lem :
    (pages : List (List Ident)) (hashes : Hashes)
    → get_all pages hashes ≡ read_keys (all_keys pages) hashes
unfolding get_all read_keys
get_all_lem [] hashes = refl
get_all_lem (page ∷ pages) hashes =
    ap (λ l. read_keys page hashes ++ l) (get_all_lem pages hashes)
    ∙ sym (read_keys-append page (all_keys pages) hashes)

abbrev counted : Instant → List ExecutorHeartbeat → ℕ
counted now hbs = length (keep (λ s. s.healthy) (map (health_of now) hbs))

counted-read_keys :
    (now : Instant) (ks : List Ident) (hashes : Hashes)
    → counted now (read_keys ks hashes) ≡ length (healthy_keys now hashes ks)
unfolding read_keys health_of is_executor_healthy is_healthy get
counted-read_keys now [] hashes = refl
counted-read_keys now (k ∷ ks) hashes = go (hashes k) (counted-read_keys now ks hashes)
  where
    go :
        (o : Option ExecutorHeartbeat)
        → counted now (read_keys ks hashes) ≡ length (healthy_keys now hashes ks)
        → counted now (push_found o (read_keys ks hashes))
          ≡ length (
              if within now 90000 o
              then k ∷ healthy_keys now hashes ks
              else healthy_keys now hashes ks)
    go none e = e
    go (some h) e = ground (arith, e)

-- The number of healthy executors, counted from a new snapshot of all heartbeats, is the number of
-- listed keys whose executor is healthy when it is asked for alone.
pub get_healthy_executor_count_lem :
    (now : Instant) (pages : List (List Ident)) (hashes : Hashes)
    → get_healthy_executor_count now pages hashes []
      ≡ length (healthy_keys now hashes (all_keys pages))
unfolding get_healthy_executor_count get_all_executor_health refresh_health
get_healthy_executor_count_lem now pages hashes =
    ap (counted now) (get_all_lem pages hashes) ∙ counted-read_keys now (all_keys pages) hashes
