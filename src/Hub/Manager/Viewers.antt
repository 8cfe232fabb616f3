-- ===== src/Hub/Manager/Viewers.antt =====
-- The viewer counts of the manager: which streams are wanted, and the keys that reach a wrong entry.
use k180_project.Base.{
  ℕ, zero, suc, ◌+◌, ◌-◌, ◌<◌, ◌≡◌, refl, ap, ◌∙◌, List, [], ◌∷◌, none, some, get_elem?, set,
  length, length-set, if◌then◌else◌, ltb, arith, ◌==◌, get_or,
}
use k180_project.Hub.Keys.{s1, s2, v1234, v4, StreamKey, stream_index, streams, h264_streams}
use k180_project.Hub.Gate
use k180_project.Hub.Manager.{
  HubManager, viewer_inc, viewer_dec, viewer_inc_h264, viewer_dec_h264, want_push_h264,
  request_idr_h264, count_viewer, uncount_viewer,
}

-- The arrays have the lengths that their declarations give them.
pub record IsSized (m : HubManager) : Type 0 where
  pub viewers_len : length m.viewers ≡ streams
  pub viewers_h264_len : length m.viewers_h264 ≡ h264_streams
  pub record_len : length m.record_enabled ≡ streams
  pub h265_len : length m.h265_gate ≡ streams
  pub h264_len : length m.h264_gate ≡ h264_streams

get_elem?-in :
    {A : Type 0} (xs : List A) (i : ℕ) → i < length xs → (x : A) × (get_elem? xs i ≡ some x)
get_elem?-in [] i h = absurd (omega arith)
get_elem?-in (x ∷ xs) zero h = (x, refl)
get_elem?-in (x ∷ xs) (suc i) h = get_elem?-in xs i (omega arith)

get_or-of : (xs : List ℕ) (i n : ℕ) → get_elem? xs i ≡ some n → get_or xs i 0 ≡ n
get_or-of [] i n h = cc
get_or-of (x ∷ xs) zero n h = cc
get_or-of (x ∷ xs) (suc i) n h = get_or-of xs i n h

get_or-set :
    (xs : List ℕ) (i j v : ℕ)
    → i < length xs
    → get_or (set xs i v) j 0 ≡ (if i == j then v else get_or xs j 0)
get_or-set [] i j v h = absurd (omega arith)
get_or-set (x ∷ xs) zero zero v h = refl
get_or-set (x ∷ xs) zero (suc j) v h = ground arith
get_or-set (x ∷ xs) (suc i) zero v h = ground arith
get_or-set (x ∷ xs) (suc i) (suc j) v h = ground (arith, get_or-set xs i j v)

-- How many clients watch a stream.
abbrev pub watching : HubManager → StreamKey → ℕ
watching m k = get_or m.viewers (stream_index k) 0

stream_index-lt : (k : StreamKey) → stream_index k < streams
stream_index-lt k = ground arith

-- On a manager whose arrays are whole, a viewer who joins is counted for its stream and no other.
pub viewer_inc-watching :
    (m : HubManager) (k l : StreamKey)
    → IsSized m
    → (m' : HubManager) × (viewer_inc m k ≡ some m')
      × IsSized m'
      × (watching m' l ≡ watching m l + (if stream_index k == stream_index l then 1 else 0))
unfolding viewer_inc
viewer_inc-watching m k l z =
    let i = stream_index k in
    let in_range : i < streams = stream_index-lt k in
    let (g, eg) = get_elem?-in m.h265_gate i (omega (arith, z.h265_len)) in
    let (n, en) = get_elem?-in m.viewers i (omega (arith, z.viewers_len)) in
    let m' : HubManager = record m {
      h265_gate = set m.h265_gate i (Gate.reset g);
      viewers = set m.viewers i (suc n);
    } in
    (
      m',
      rw (eg, viewer_inc, count_viewer, en),
      record {
        viewers_len = length-set m.viewers i (suc n) ∙ z.viewers_len;
        viewers_h264_len = z.viewers_h264_len;
        record_len = z.record_len;
        h265_len = length-set m.h265_gate i (Gate.reset g) ∙ z.h265_len;
        h264_len = z.h264_len;
      },
      ground (
        arith,
        get_or-set m.viewers i (stream_index l) (suc n) (omega (arith, z.viewers_len)),
        get_or-of m.viewers i n en,
        ap (λ j. get_or m.viewers j 0) {x = i} {y = stream_index l},
      ),
    )

-- A viewer who leaves is taken off the count of its stream, which never goes below 0, and off no other.
pub viewer_dec-watching :
    (m : HubManager) (k l : StreamKey)
    → IsSized m
    → (m' : HubManager) × (viewer_dec m k ≡ some m')
      × IsSized m'
      × (watching m' l ≡ watching m l - (if stream_index k == stream_index l then 1 else 0))
unfolding viewer_dec
viewer_dec-watching m k l z =
    let i = stream_index k in
    let in_range : i < streams = stream_index-lt k in
    let (n, en) = get_elem?-in m.viewers i (omega (arith, z.viewers_len)) in
    let less : ℕ = if ltb 0 n then n - 1 else n in
    let m' : HubManager = record m { viewers = set m.viewers i less } in
    (
      m',
      rw (en, viewer_dec, uncount_viewer),
      record {
        viewers_len = length-set m.viewers i less ∙ z.viewers_len;
        viewers_h264_len = z.viewers_h264_len;
        record_len = z.record_len;
        h265_len = z.h265_len;
        h264_len = z.h264_len;
      },
      ground (
        arith,
        get_or-set m.viewers i (stream_index l) less (omega (arith, z.viewers_len)),
        get_or-of m.viewers i n en,
        ap (λ j. get_or m.viewers j 0) {x = i} {y = stream_index l},
      ),
    )

-- The wide view has no H264 hub, but only the requests for key frames are kept from it: in the first
-- group, leaving and asking whether it is wanted go outside of the array, while joining is ignored;
-- in the second group all three go to the counter of the first group's fourth view.
pub wide_view_h264 :
    (m : HubManager)
    → let first : StreamKey = record { g = s1; v = v1234 } in
      let second : StreamKey = record { g = s2; v = v1234 } in
      let fourth : StreamKey = record { g = s1; v = v4 } in
      (viewer_inc_h264 m first ≡ some m)
      × (viewer_dec_h264 m first ≡ none)
      × (want_push_h264 m first ≡ none)
      × (request_idr_h264 first ≡ none)
      × (viewer_inc_h264 m second ≡ viewer_inc_h264 m fourth)
      × (viewer_dec_h264 m second ≡ viewer_dec_h264 m fourth)
      × (want_push_h264 m second ≡ want_push_h264 m fourth)
      × (request_idr_h264 second ≡ none)
unfolding viewer_inc_h264 viewer_dec_h264 want_push_h264 request_idr_h264
wide_view_h264 m = (refl, refl, refl, refl, refl, refl, refl, refl)
