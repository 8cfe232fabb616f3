-- ===== src/Hub/H264/Tests.antt =====
-- The theorem of the H264 hub at a concrete run.
use k180_project.Base.{true, false, List, [], ◌∷◌, pos}
use k180_project.Hub.H264.{Launch}
use k180_project.Hub.H264.Balance.{Call, creates, starts, pushes}

abbrev no_enc : Launch
no_enc = record { parsed = true; has_rawsrc = true; has_enc = false }

abbrev session : List Call
session =
    creates (record { in_w = pos 1920; in_h = pos 1080; fps = pos 30; udp_port = pos 5700 }) no_enc
    ∷ creates (record { in_w = pos 1920; in_h = pos 1080; fps = pos 30; udp_port = pos 5700 })
        (record no_enc { has_enc = true })
    ∷ starts true
    ∷ pushes 1 1000 true true
    ∷ []
