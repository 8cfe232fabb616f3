-- ===== src/Hub/Keys.antt =====
-- rtsp_server/include/k180_stream_key.h: the two groups of five views, and the indices of their hubs.
use k180_project.Base.{ℕ, ◌+◌, ◌*◌, ◌-◌, ◌<◌, ◌≡◌, ℤ, pos, sub_ℕ, arith}

pub data StreamGroup : Type 0 where
  s1 s2 : StreamGroup

pub data StreamView : Type 0 where
  v1234 v1 v2 v3 v4 : StreamView

pub record StreamKey : Type 0 where
  pub g : StreamGroup
  pub v : StreamView

abbrev pub group_number : StreamGroup → ℕ
group_number s1 = 0
group_number s2 = 1

abbrev pub view_index : StreamView → ℕ
view_index v1234 = 0
view_index v1 = 1
view_index v2 = 2
view_index v3 = 3
view_index v4 = 4

abbrev pub views : ℕ
views = 5

abbrev pub streams : ℕ
streams = 10

abbrev pub stream_index : StreamKey → ℕ
stream_index k = group_number k.g * views + view_index k.v

abbrev pub h264_views : ℕ
h264_views = 4

abbrev pub h264_streams : ℕ
h264_streams = 8

-- An `int`: the first group's V1234 has the index -1.
abbrev pub h264_index : StreamGroup → StreamView → ℤ
h264_index g v = sub_ℕ (group_number g * h264_views + view_index v) 1

-- The label of a view in logs.
pub view_number : StreamView → ℕ
view_number v1234 = 1234
view_number v1 = 1
view_number v2 = 2
view_number v3 = 3
view_number v4 = 4

-- `stream_index` numbers the ten streams, each with its own index.
pub stream_index-injective :
    (k l : StreamKey) → (stream_index k < streams) × (stream_index k ≡ stream_index l → k ≡ l)
stream_index-injective k l = (ground arith, λ e. ground arith)

-- Of the views that have an H264 hub.
abbrev pub IsSingle : StreamView → Type 0
IsSingle v1234 = ⊥
IsSingle _ = Unit {0}

-- `h264_index` numbers the eight single views, each with its own index. For the wide view it gives -1
-- in the first group and, in the second, the index of the first group's fourth view.
pub h264_index-injective :
    (g h : StreamGroup) (v w : StreamView)
    → IsSingle v
    → IsSingle w
    → ((i : ℕ) × (h264_index g v ≡ pos i) × (i < h264_streams))
      × (h264_index g v ≡ h264_index h w → (g ≡ h) × (v ≡ w))
h264_index-injective g h v1234 w p q = elim p [ ]
h264_index-injective g h v v1234 p q = elim q [ ]
h264_index-injective g h v w p q = (
  (group_number g * h264_views + view_index v - 1, ground arith, ground arith),
  λ e. ground arith,
)
