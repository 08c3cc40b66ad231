-- ===== src/Tests/Settling.antt =====
-- A file that changes as long as it is watched, and a deadline after two waits.
use mediastub.Prelude.{ℕ, true, ◌≤◌, ◌≡◌, refl, leb, arith}
use mediastub.Syncer.Base.{same_local_file, ok, err, not_settled}
use mediastub.Syncer.World.{Env, handle, asked, stat_local, expired}
use mediastub.Syncer.Media.{wait_stable_media}
use mediastub.Syncer.Settling.{waits, wait_stable_media_ends}
use mediastub.Tests.Worlds.{film, film_file, small_world, small_host, start}

abbrev restless_world : Env
unfolding waits
restless_world t (stat_local p) = ok (record film_file { inode = waits t })
restless_world t expired = leb 2 (waits t)
restless_world t c = small_world t c

after_two : (n : ℕ) → 2 ≤ n → leb 2 n ≡ true
after_two n h = ground arith

wait_stable_media_ends_example :
    wait_stable_media small_host restless_world 7 film film_file start
    ≡ wait_stable_media small_host restless_world 2 film film_file start
unfolding waits
wait_stable_media_ends_example =
    wait_stable_media_ends small_host restless_world film 1 6 film_file start (omega arith)
      (λ t h. after_two (waits t) h)

restless_fails :
    (wait_stable_media small_host restless_world 2 film film_file start).0 ≡ err not_settled
unfolding wait_stable_media handle same_local_file asked waits
restless_fails = refl
