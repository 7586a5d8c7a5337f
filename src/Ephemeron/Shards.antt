-- ===== src/Ephemeron/Shards.antt =====
-- The shards of a sweep: each bucket belongs to one, so together they come to every pending ephemeron.
use native.Mathlib.Nat.{mul-div_cancel, mul-le-mul_left}
use whippet.Base.{
  ℕ, zero, suc, ◌+◌, ◌-◌, ◌*◌, ◌≤◌, ◌<◌, ◌≡◌, refl, sym, ap, ◌∙◌, List, [], ◌∷◌, ◌++◌, Option, some,
  true, false, arith, lt→ltb, ◌>>=◌, take, drop, length, map,
}
use whippet.Histogram.{div_mono}
use whippet.Ephemeron.{is_state_pending, World, shard_start, sweep_buckets, no_list, sweep_pending}
use whippet.Ephemeron.Sweep.{queued, dead, swept, sweep_buckets-swept, swept_again, swept_none}

-- The first buckets are empty, and the others as they were.
abbrev emptied : ℕ → List (List ℕ) → List (List ℕ)
emptied zero bs = bs
emptied (suc n) [] = []
emptied (suc n) (b ∷ bs) = [] ∷ emptied n bs

drop-emptied : (n : ℕ) (bs : List (List ℕ)) → drop n (emptied n bs) ≡ drop n bs
drop-emptied zero bs = refl
drop-emptied (suc n) [] = refl
drop-emptied (suc n) (b ∷ bs) = drop-emptied n bs

length-emptied : (n : ℕ) (bs : List (List ℕ)) → length (emptied n bs) ≡ length bs
length-emptied zero bs = refl
length-emptied (suc n) [] = refl
length-emptied (suc n) (b ∷ bs) = ap suc (length-emptied n bs)

emptied_front : (d : ℕ) (bs : List (List ℕ)) → map no_list (take d bs) ++ drop d bs ≡ emptied d bs
emptied_front zero bs = refl
emptied_front (suc d) [] = refl
emptied_front (suc d) (b ∷ bs) = ap (λ cs. [] ∷ cs) (emptied_front d bs)

emptied_slice :
    (s d : ℕ) (bs : List (List ℕ))
    → take s (emptied s bs)
        ++ map no_list (take d (drop s (emptied s bs)))
        ++ drop (s + d) (emptied s bs)
      ≡ emptied (s + d) bs
emptied_slice zero d bs = let e : 0 + d ≡ d = omega arith in rw e (emptied_front d bs)
emptied_slice (suc s) zero [] = let e : suc s + 0 ≡ suc s = omega arith in rw e refl
emptied_slice (suc s) (suc d) [] =
    let e : suc s + suc d ≡ suc (s + suc d) = omega arith in rw e refl
emptied_slice (suc s) d (b ∷ bs) =
    let e : suc s + d ≡ suc (s + d) = omega arith in
    rw e (ap (λ cs. [] ∷ cs) (emptied_slice s d bs))

pub queued_slice :
    (a s d : ℕ) (bs : List (List ℕ))
    → queued a (take s bs) + queued a (take d (drop s bs)) ≡ queued a (take (s + d) bs)
queued_slice a zero d bs = let e : 0 + d ≡ d = omega arith in rw e (omega arith)
queued_slice a (suc s) zero [] = let e : suc s + 0 ≡ suc s = omega arith in rw e refl
queued_slice a (suc s) (suc d) [] =
    let e : suc s + suc d ≡ suc (s + suc d) = omega arith in rw e refl
queued_slice a (suc s) d (b ∷ bs) =
    let e : suc s + d ≡ suc (s + d) = omega arith in rw e (omega (arith, queued_slice a s d bs))

take_all : (bs : List (List ℕ)) → take (length bs) bs ≡ bs
take_all [] = refl
take_all (b ∷ bs) = ap (λ cs. b ∷ cs) (take_all bs)

pub shard-le : (n k m : ℕ) → 0 < m → shard_start n k m ≤ shard_start n (k + 1) m
shard-le n k m pos =
    div_mono (n * k) (n * (k + 1)) m pos (mul-le-mul_left n (let h : k ≤ k + 1 = omega arith in h))

queued-emptied : (a : ℕ) (bs : List (List ℕ)) → queued a (emptied (length bs) bs) ≡ 0
queued-emptied a [] = refl
queued-emptied a (b ∷ bs) = omega (arith, queued-emptied a bs)

module _ {ℓ} {Heap : Type ℓ} where
  -- The calls for the first shards, one after another.
  abbrev pub sweep_shards : ℕ → ℕ → World Heap → Option (World Heap)
  sweep_shards zero nshards w = some w
  sweep_shards (suc k) nshards w = do w' ← sweep_shards k nshards w; sweep_pending w' k nshards

  -- The first buckets are swept, and all else is as it was.
  record UpTo (n : ℕ) (w w' : World Heap) : Type ℓ where
    at : (a : ℕ) → w'.store a ≡ swept (queued a (take n w.buckets)) (w.store a)
    buckets : w'.buckets ≡ emptied n w.buckets
    same : (w'.resolved_list ≡ w.resolved_list) × (w'.epoch ≡ w.epoch) × (w'.heap ≡ w.heap)

  sweep_slice :
      (n t : ℕ) (w w' : World Heap)
      → n ≤ t
      → UpTo n w w'
      → let slice = take (t - n) (drop n w'.buckets) in
        UpTo t w (record w' {
          store = sweep_buckets slice w'.store;
          buckets = take n w'.buckets ++ map no_list slice ++ drop t w'.buckets;
        })
  sweep_slice n t w w' h u =
      let bs = w.buckets in
      let e : n + (t - n) ≡ t = omega arith in
      let slice : take (t - n) (drop n w'.buckets) ≡ take (t - n) (drop n bs) =
        ap (λ cs. take (t - n) (drop n cs)) u.buckets ∙ ap (take (t - n)) (drop-emptied n bs) in
      record {
        at = λ a.
            sweep_buckets-swept (take (t - n) (drop n w'.buckets)) w'.store a
            ∙ ap (λ cs. swept (queued a cs) (w'.store a)) slice
            ∙ ap (swept (queued a (take (t - n) (drop n bs)))) (u.at a)
            ∙ swept_again (queued a (take n bs)) (queued a (take (t - n) (drop n bs))) (w.store a)
            ∙ ap (λ q. swept q (w.store a))
                (queued_slice a n (t - n) bs ∙ ap (λ i. queued a (take i bs)) e);
        buckets =
            ap (λ cs. take n cs ++ map no_list (take (t - n) (drop n cs)) ++ drop t cs) u.buckets
            ∙ ap
                (λ i.
                  take n (emptied n bs)
                  ++ map no_list (take (t - n) (drop n (emptied n bs)))
                  ++ drop i (emptied n bs))
                (sym e)
            ∙ emptied_slice n (t - n) bs
            ∙ ap (λ i. emptied i bs) e;
        same = u.same;
      }

  record SweptUpTo (n : ℕ) (w : World Heap) (out : Option (World Heap)) : Type ℓ where
    world : World Heap
    run : out ≡ some world
    up_to : UpTo n w world

  next_shard :
      (k m : ℕ) (w w' : World Heap)
      → k < m
      → UpTo (shard_start (length w.buckets) k m) w w'
      → SweptUpTo (shard_start (length w.buckets) (k + 1) m) w (sweep_pending w' k m)
  unfolding sweep_pending
  next_shard k m w w' h u =
      let n = length w.buckets in
      let e : length w'.buckets ≡ n =
        ap length u.buckets ∙ length-emptied (shard_start n k m) w.buckets in
      rw (lt→ltb k m h, e)
        record {
          world = _;
          run = refl;
          up_to =
              sweep_slice (shard_start n k m) (shard_start n (k + 1) m) w w'
                (shard-le n k m (omega (arith, h))) u;
        }

  shards-SweptUpTo :
      (k m : ℕ) (w : World Heap)
      → k ≤ m
      → 0 < m
      → SweptUpTo (shard_start (length w.buckets) k m) w (sweep_shards k m w)
  shards-SweptUpTo zero m w h pos =
      let e : shard_start (length w.buckets) 0 m ≡ 0 = omega arith in
      rw e record {
        world = w;
        run = refl;
        up_to = record {
          at = λ a. sym (swept_none (w.store a));
          buckets = refl;
          same = (refl, refl, refl);
        };
      }
  shards-SweptUpTo (suc k) m w h pos =
      let u = shards-SweptUpTo k m w (omega (arith, h)) pos in
      let e : suc k ≡ k + 1 = omega arith in
      rw (e, u.run, ◌>>=◌) (next_shard k m w u.world (omega (arith, h)) u.up_to)

  -- What sweeping all shards does.
  pub record Sweeps (w : World Heap) (out : Option (World Heap)) : Type ℓ where
    pub world : World Heap
    pub run : out ≡ some world
    pub dies :
        (a : ℕ) → is_state_pending (w.store a).state ≡ true → world.store a ≡ dead (w.store a)
    pub stays : (a : ℕ) → is_state_pending (w.store a).state ≡ false → world.store a ≡ w.store a
    pub empty : (a : ℕ) → queued a world.buckets ≡ 0
    pub same :
        (world.resolved_list ≡ w.resolved_list) × (world.epoch ≡ w.epoch) × (world.heap ≡ w.heap)

  -- Where every pending ephemeron is in a bucket, sweeping all shards, however many they are, ends with
  -- no assertion failed: exactly the pending ephemerons are dead and traced then, all others are as they
  -- were, and all buckets are empty.
  pub sweep_shards-Sweeps :
      (nshards : ℕ) (w : World Heap)
      → 0 < nshards
      → ((a : ℕ) → is_state_pending (w.store a).state ≡ true → 0 < queued a w.buckets)
      → Sweeps w (sweep_shards nshards nshards w)
  sweep_shards-Sweeps nshards w pos held =
      let u = shards-SweptUpTo nshards nshards w (omega arith) pos in
      let n = length w.buckets in
      let all : take (shard_start n nshards nshards) w.buckets ≡ w.buckets =
        ap (λ i. take i w.buckets) (mul-div_cancel n pos) ∙ take_all w.buckets in
      record {
        world = u.world;
        run = u.run;
        dies = λ a p.
            u.up_to.at a
            ∙ ap (λ cs. swept (queued a cs) (w.store a)) all
            ∙ rw (p, lt→ltb 0 (queued a w.buckets) (held a p)) refl;
        stays = λ a p. u.up_to.at a ∙ rw p refl;
        empty = λ a.
            ap (queued a) (u.up_to.buckets ∙ ap (λ i. emptied i w.buckets) (mul-div_cancel n pos))
            ∙ queued-emptied a w.buckets;
        same = u.up_to.same;
      }
