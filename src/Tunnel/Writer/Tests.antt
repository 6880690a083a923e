-- ===== src/Tunnel/Writer/Tests.antt =====
-- A handler that writes a page in two chunks.
use muxbridge.Base.{◌≡◌, refl, some, List, [], ◌∷◌, Bytes, codes, bytes_eq}
use muxbridge.Headers.{from_proto, copy, to_proto}
use muxbridge.Server.Relay.{Reach}
use muxbridge.Server.Relay.Frames.{response_frames}
use muxbridge.Server.Relay.Tests.{greeted, greeted_exchange, greeted-Reach}
use muxbridge.Tunnel.Writer.{Call, writes_header, writes, flushes, returns, serve_request}
use muxbridge.Tunnel.Writer.Frames.{logging, start_sent, serve_request_lem}
use muxbridge.Tunnel.Writer.Journey.{served, browser_receives}

abbrev page : List Call
page = writes_header 201 ∷ writes (codes "he") ∷ flushes ∷ writes (codes "llo") ∷ []

abbrev page_chunks : List Bytes
page_chunks = codes "he" ∷ codes "llo" ∷ []

serve_request_lem_example :
    (serve_request logging 7 page returns []).stream
    ≡ response_frames (start_sent 7 [] page) page_chunks
serve_request_lem_example = serve_request_lem 7 page

page-Reach : Reach (served 7 page []) greeted_exchange
unfolding to_proto
page-Reach = rw (serve_request_lem 7 page) greeted-Reach

browser_receives_example :
    (greeted.status ≡ some 201)
    × (greeted.header ≡ copy [] (from_proto []))
    × (greeted.body ≡ codes "hello")
unfolding to_proto
browser_receives_example = browser_receives 7 page [] greeted_exchange greeted page-Reach refl
