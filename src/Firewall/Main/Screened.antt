-- ===== src/Firewall/Main/Screened.antt =====
-- Transactions that touch an address of the sanctions file, in a firewall that main has started.
use tx_firewall.Base.{refl, Bytes, true, none, List, ◌∷◌, ◌++◌, ◌≡◌, ◌≢◌, ok, ◌||◌, any, ◌∙◌}
use tx_firewall.Geth.{Geth, Address}
use tx_firewall.TxDecode.{Codec, Decoded, decode_raw_transaction}
use tx_firewall.Simulate.{CallFrame, simulate}
use tx_firewall.Sanctions.Listed.{Line}
use tx_firewall.Sanctions.Listed.Format.{names, load_list_checker-names}
use tx_firewall.Analysis.Touched.{touches, is_party}
use tx_firewall.JsonRpc.{Request, Json, parse_requests}
use tx_firewall.Proxy.{forwarded, handle}
use tx_firewall.Screen.{screen}
use tx_firewall.Firewall.{screener}
use tx_firewall.Firewall.Headline.{handle-listed}
use tx_firewall.Firewall.Settings.{Settings}
use tx_firewall.Firewall.Settings.Accepted.{read_settings_iff}
use tx_firewall.Firewall.Main.{
  Client, Outside, World, Screener, Server, on_outside, simulator, config, server, main,
}
use tx_firewall.Firewall.Main.Served.{IsScreener, main-IsServed}

-- Whenever the node simulates the transaction, its trace touches the address.
abbrev pub AlwaysTouches : {N : Type 0} → Geth → Client N → Address → Decoded → Type 0
AlwaysTouches {N} g node addr d =
    (n : N) (t : CallFrame)
    → (simulate node.call_context d n).0 ≡ ok t
    → (is_party g addr d || touches g addr t) ≡ true

module _ (g : Geth) {N : Type 0} (o : Outside N) (c : Codec) (j : Json) where
  screens-listed :
      (s : Settings) (n : N) (r : Screener (World N)) (lines : List Line) (addr : Address)
      (body b : Bytes) (before after : List Request) (req : Request) (d : Decoded) (w : World N)
      → IsScreener g o s n r
      → o.read_lines s.sanctions_file ≡ ok (lines, none)
      → any (names g o.quote addr) lines ≡ true
      → parse_requests j body ≡ ok (before ++ req ∷ after)
      → req.method ≡ "eth_sendRawTransaction"
      → decode_raw_transaction c req.params ≡ ok d
      → AlwaysTouches g (o.client s.upstream_url) addr d
      → (handle c (screen g r.sim r.engine) j (ok body) w).0 ≢ forwarded b
  unfolding config screener simulator on_outside
  screens-listed s n r lines addr body b before after req d w made file named parsed sends decodes
        touches_ =
      let (is_named, _) =
        load_list_checker-names g o.quote s.sanctions_file lines made.list addr
          (rw file at made.loaded) in
      rw (← made.simulates) (
        handle-listed g (config g o s made.list made.oracle) made.list r.engine c j addr body b
          before after req d w refl made.built (is_named ∙ named) parsed sends decodes
          (λ w' t e. touches_ w'.outside t e))

  pub main-listed :
      (n : N) (srv : Server N) (lines : List Line) (addr : Address) (body b : Bytes)
      (before after : List Request) (req : Request) (d : Decoded) (w : World N)
      → (main g o c j n).0 ≡ ok srv
      → o.read_lines (o.env "SANCTIONS_FILE") ≡ ok (lines, none)
      → any (names g o.quote addr) lines ≡ true
      → parse_requests j body ≡ ok (before ++ req ∷ after)
      → req.method ≡ "eth_sendRawTransaction"
      → decode_raw_transaction c req.params ≡ ok d
      → AlwaysTouches g (o.client (o.env "UPSTREAM_URL")) addr d
      → (srv.handler (ok body) w).0 ≢ forwarded b
  unfolding server
  main-listed n srv lines addr body b before after req d w started file named parsed sends decodes
        touches_ =
      let run = main-IsServed g o c j n started in
      let spelled = (read_settings_iff o.env o.slog o.parse_url run.settings).0 run.read in
      rw (← run.served) (
        screens-listed run.settings run.n₃ run.screener lines addr body b before after req d w
          run.screens (rw spelled.names_file at file) named parsed sends decodes
          (rw spelled.names_url at touches_))
