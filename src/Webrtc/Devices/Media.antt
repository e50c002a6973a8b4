-- ===== src/Webrtc/Devices/Media.antt =====
-- Tracks that are turned over twice, and the servers that are left without UDP.
use signalwire_node.Common.{
  ap, ◌∙◌, if-both, ◌==◌, ◌||◌, Bool-cases, ◌≡◌, refl, ap, ◌∙◌, Bool, true, false, Option, none,
  some, List, [], ◌∷◌, String, arith, inl, inr, keep, All,
}
use signalwire_node.Common.Text.{contains}
use signalwire_node.Webrtc.Devices.{
  update_track, Track, toggle, update_media_stream_tracks, IceServer, Urls, one, many, tcp_only,
  filter_ice_servers,
}

-- Every URL names the transport, or is the empty text that stands for none.
abbrev pub IsTcp : Urls → Type 0
IsTcp (one url) = ((url == "") || contains "transport=tcp" url) ≡ true
IsTcp (many urls) = All (λ url. contains "transport=tcp" url ≡ true) urls

keep-All : (p : String → Bool) (xs : List String) → All (λ x. p x ≡ true) (keep p xs)
keep-All p [] = tt
keep-All p (x ∷ xs) = elim (Bool-cases (p x)) [
  | inl e ↦ rw e (e, keep-All p xs)
  | inr e ↦ rw e (keep-All p xs)
]

tcp_only-IsTcp : (urls : Urls) → IsTcp (tcp_only urls)
tcp_only-IsTcp (many urls) = keep-All (contains "transport=tcp") urls
tcp_only-IsTcp (one url) =
    if-both (λ u. ((u == "") || contains "transport=tcp" u) ≡ true) (contains "transport=tcp" url)
      url "" (λ e. ground (arith, e)) (λ e. refl)

-- Without UDP, every URL that is left names the TCP transport, or is empty.
pub filter_ice_servers-AllTcp :
    (servers : List IceServer) → All (λ s. IsTcp s.urls) (filter_ice_servers servers true)
unfolding filter_ice_servers
filter_ice_servers-AllTcp [] = tt
filter_ice_servers-AllTcp (s ∷ servers) = (tcp_only-IsTcp s.urls, filter_ice_servers-AllTcp servers)

toggled :
    (kind : Option Bool) (audio enabled : Bool)
    → update_track kind toggle
        (update_track kind toggle (record { is_audio = audio; enabled = enabled }))
      ≡ record { is_audio = audio; enabled = enabled }
toggled none audio true = refl
toggled none audio false = refl
toggled (some true) true true = refl
toggled (some true) true false = refl
toggled (some true) false enabled = refl
toggled (some false) false true = refl
toggled (some false) false false = refl
toggled (some false) true enabled = refl

-- Turning over the tracks of a kind twice gives back the tracks.
pub update_media_stream_tracks-toggle :
    (kind : Option Bool) (ts : List Track)
    → update_media_stream_tracks kind toggle (update_media_stream_tracks kind toggle ts) ≡ ts
unfolding update_media_stream_tracks
update_media_stream_tracks-toggle kind [] = refl
update_media_stream_tracks-toggle kind (t ∷ ts) =
    ap (λ u. u ∷ update_media_stream_tracks kind toggle (update_media_stream_tracks kind toggle ts))
      (toggled kind t.is_audio t.enabled)
    ∙ ap (◌∷◌ t) (update_media_stream_tracks-toggle kind ts)
