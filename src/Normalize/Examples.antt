-- ===== src/Normalize/Examples.antt =====
-- Runs of internal/normalize.
use mxlrcgo_svc.Common.{◌≡◌, refl, ◌||◌, str_eq, if◌then◌else◌}
use mxlrcgo_svc.Common.Int.{pos, negsuc}
use mxlrcgo_svc.Normalize.{duration_bucket, trim_space, is_generic_album_artist, resolve_artist}
use mxlrcgo_svc.Normalize.Artist.{resolve_artist-trim_space}

buckets : duration_bucket (pos 213) ≡ 42
unfolding duration_bucket
buckets = refl

no_bucket : duration_bucket (negsuc 299) ≡ 0
unfolding duration_bucket
no_bucket = refl

compilation : resolve_artist " Various ARTISTS" "Nico" ≡ "Nico"
unfolding resolve_artist is_generic_album_artist trim_space
compilation = refl

padded_names : resolve_artist " Can " "Can; Damo Suzuki" ≡ "Can"
unfolding resolve_artist is_generic_album_artist trim_space
padded_names = refl

resolve_artist-trim_space_test :
    (resolve_artist " Can " "Can; Damo Suzuki"
      ≡ resolve_artist (trim_space " Can ") "Can; Damo Suzuki")
    × (resolve_artist " Can " "Can; Damo Suzuki" ≡ (
        if str_eq (trim_space " Can ") "" || is_generic_album_artist " Can "
        then "Can; Damo Suzuki"
        else trim_space " Can "))
resolve_artist-trim_space_test = resolve_artist-trim_space " Can " "Can; Damo Suzuki"
