-- ===== src/Handler/DatagramSocket/Opened.antt =====
-- handler/datagram_socket.cpp: `open` of a client and of a server with the same parameters makes a pair.
use ipc_performance.Prelude.{
  ℕ, ◌≡◌, refl, ap, ◌∙◌, sym, Bool, true, false, none, some, List, [], arith, length,
}
use ipc_performance.Communication.Frame.{Frame}
use ipc_performance.Handler.Link.{Op, run, spec_run, Within}
use ipc_performance.Handler.Sockets.{build_address, build_address-comes_to}
use ipc_performance.Handler.DatagramSocket.{DatagramSocket, Replies, open_handler}
use ipc_performance.Handler.DatagramSocket.Lifecycle.{open_datagram-fds}
use ipc_performance.Handler.DatagramSocket.Transfer.{State, link, run_datagram-spec_run}

open_datagram-kept : (h : DatagramSocket) (r : Replies) → (open_handler h r).1.frame ≡ h.frame
unfolding open_handler
open_datagram-kept h r = ground arith

-- An `open` that returns true has set the address.
open_datagram-address :
    (h : DatagramSocket) (r : Replies)
    → h.sfd ≡ none
    → (open_handler h r).0 ≡ true
    → build_address h.parameters r.parsed ≡ some (open_handler h r).1.address
unfolding open_handler
open_datagram-address h r e f = ground arith

-- Both handlers, opened, with no message between them.
abbrev pub opened : DatagramSocket → DatagramSocket → Replies → Replies → State
opened w r to_w to_r = record {
  w = (open_handler w to_w).1;
  r = (open_handler r to_r).1;
  queue = [];
}

-- DatagramSocket from `open` on: if a client and a server of the same path, port and domain, both
-- closed and with buffers of 528 bytes, are opened and both calls return true, and the IP address
-- that the client's path stands for, where it stands for one, is one of the server's machine,
-- then, while the system keeps no more datagrams than it has room for (`capacity`), loses none
-- and no other call fails, every sequence of `write` and `read` is answered as by an empty queue.
pub run_opened_datagrams-spec_run :
    (here : ℕ → Bool) (capacity : ℕ) (w r : DatagramSocket) (to_w to_r : Replies) (ops : List Op)
    → w.sfd ≡ none
    → r.sfd ≡ none
    → w.parameters.server ≡ false
    → r.parameters.server ≡ true
    → w.parameters.path ≡ r.parameters.path
    → w.parameters.port ≡ r.parameters.port
    → w.parameters.unix ≡ r.parameters.unix
    → length w.frame.buffer ≡ 528
    → length r.frame.buffer ≡ 528
    → (open_handler w to_w).0 ≡ true
    → (open_handler r to_r).0 ≡ true
    → ((ip : ℕ) → to_w.parsed ≡ some ip → here ip ≡ true)
    → Within capacity 0 ops
    → run (link here capacity) (opened w r to_w to_r) ops ≡ spec_run w.frame.last_id [] ops
run_opened_datagrams-spec_run here capacity w r to_w to_r ops cw cr client server path port unix bw
      br ow or known inside =
    run_datagram-spec_run here capacity (opened w r to_w to_r) [] ops
      (record {
        w_open = sym (open_datagram-fds w to_w).0 ∙ ow;
        r_open = sym (open_datagram-fds r to_r).0 ∙ or;
        reaches =
            build_address-comes_to here w.parameters r.parameters to_w.parsed to_r.parsed _ _ path
              port unix client server known (open_datagram-address w to_w cw ow)
              (open_datagram-address r to_r cr or);
        w_buffer = ap (λ (f : Frame). length f.buffer) (open_datagram-kept w to_w) ∙ bw;
        r_buffer = ap (λ (f : Frame). length f.buffer) (open_datagram-kept r to_r) ∙ br;
        queued = refl;
        fit = tt;
      })
      inside
    ∙ ap (λ (f : Frame). spec_run f.last_id [] ops) (open_datagram-kept w to_w)
