-- ===== src/Examples/Queue.antt =====
-- A queue with a reader of documents that looks at the first byte of a text.
use ceph_mesos.Prelude.{List, Text, [], codes, suc, zero, ℕ, ◌++◌, ◌∷◌}
use ceph_mesos.Scheduler.EventLoop.Queue.{QueueEvent, posted, round}

abbrev blanks : ℕ → Text
blanks zero = []
blanks (suc n) = b' ' ∷ blanks n

abbrev blank_buffer : Text
blank_buffer = blanks 255 ++ 0 ∷ []

abbrev some_steps : List QueueEvent
some_steps =
    posted (codes "o1") ∷ posted (codes "x") ∷ round blank_buffer ∷ posted (codes "o2") ∷ []
