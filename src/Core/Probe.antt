-- ===== src/Core/Probe.antt =====
-- core/probe.go: detection of the container and the choice of the probe.
pub mod Sound
use mediastub.Prelude.{
  ℕ, ◌+◌, ◌-◌, ◌++◌, replicate, Bool, true, false, ◌||◌, ◌&&◌, none, some, min, length, take, drop,
  ltb, leb, ◌==◌, not, if◌then◌else◌, [],
}
use mediastub.Core.Base.{Bytes, Read, eof, not_media, empty_input}
use mediastub.Core.Source.{Source, Budget, Stats, Budgeted, limits_of, new_budgeted, budgeted}
use mediastub.Core.Plan.{Plan}
use mediastub.Core.Action.{Act, Outcome, ◌>>=◌, lift, pure, fail, read, check_but_eof}
use mediastub.Core.Ebml.{be_value, ebml_header_id}
use mediastub.Core.Matroska.{probe_matroska}
use mediastub.Core.Mp4.{same_bytes, ftyp, probe_mp4}

-- The constants `FormatMatroska` and `FormatMP4`.
pub data Format : Type 0 where
  matroska mp4 : Format

pub record Probed : Type 0 where
  pub format : Format
  pub plan : Plan
  pub stats : Stats

unfoldable pub looks_like_mp4 : Bytes → Bool
looks_like_mp4 head =
    let size = be_value 0 (take 4 head) in
    not (ltb (length head) 12 || not (same_bytes (take 4 (drop 4 head)) ftyp))
    && (size == 1 || leb 8 size)

abbrev pub looks_like_matroska : Bytes → Bool
looks_like_matroska head = leb 4 (length head) && (be_value 0 (take 4 head) == ebml_header_id)

-- The `switch` of `Probe`, over the source that reads are made from.
unfoldable pub probe_head : (source : Source) → Bytes → Act source.State (Format × Plan)
unfolding looks_like_mp4
probe_head source head =
    if looks_like_matroska head
    then probe_matroska source >>= (λ plan. pure (matroska, plan))
    else if looks_like_mp4 head
    then probe_mp4 source >>= (λ plan. pure (mp4, plan))
    else fail not_media

abbrev pub stats_of : {Inner : Type 0} → Format × Plan → Act (Budgeted Inner) Probed
stats_of (format, plan) s = pure (record { format = format; plan = plan; stats = s.stats }) s

-- The buffer of `size` bytes, which are 0 behind those that were read
abbrev pub padded : ℕ → Bytes → Bytes
padded size bs = bs ++ replicate (size - length bs) 0

unfoldable pub probe_bounded : (source : Source) → Budget → Act (Budgeted source.State) Probed
unfolding probe_head
probe_bounded source budget =
    let bounded = budgeted source (limits_of budget) in
    let head_size = min source.size 64 in
    if head_size == 0
    then fail empty_input
    else read bounded head_size 0
      >>= (λ r. check_but_eof r)
      >>= (λ head. probe_head bounded (padded head_size head))
      >>= stats_of

-- `Probe`, with the state of the source before it.
unfoldable pub probe : (source : Source) → Budget → source.State → Outcome Probed
unfolding probe_bounded
probe source budget s = (probe_bounded source budget (new_budgeted s)).0
