-- ===== src/Broker/Links.antt =====
-- What `Connect::unlink` changes.
use ijson.Prelude.{ℕ, ◌-◌, ◌≡◌, if◌then◌else◌, arith, ◌==◌, ◌<◌}
use ijson.Broker.{Server, ok, thrown, unlink, store, append_at}
use ijson.Prelude.{exception}

-- One link less, and dead with the last one.
abbrev pub unlinked : ℕ → Server → Server
unlinked c s =
    let k = s.connects c in
    record s {
      connects = store s.connects c (record k { link = k.link - 1 });
      dead = if k.link == 1 then append_at s.dead k.nloop c else s.dead;
    }

-- A connection with a link loses it, and is listed as dead if it was the last.
pub unlink-linked :
    (c : ℕ) (s : Server) → 0 < (s.connects c).link → unlink c s ≡ ok tt (unlinked c s)
unfolding unlink
unlink-linked c s h = ground arith

-- One without a link raises the exception.
pub unlink-unlinked :
    (c : ℕ) (s : Server) → (s.connects c).link ≡ 0 → unlink c s ≡ thrown exception s
unfolding unlink
unlink-unlinked c s h = rw h
