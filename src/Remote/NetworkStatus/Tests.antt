-- ===== src/Remote/NetworkStatus/Tests.antt =====
-- Polls of a concrete network.
use vscode_coder.Base.{◌≡◌, refl, true, false, none, codes}
use vscode_coder.Remote.NetworkStatus.{
  StatusBarItem, new_reporter, update, update_warning_state, Poll, poll,
}

abbrev hidden_item : StatusBarItem
hidden_item = record { text = none; warning_background = false; command = none }

abbrev lagging : Poll
lagging = record {
  threshold = 250;
  network = record {
    p2p = true;
    preferred_derp = codes "nyc";
    latency = 400;
    using_coder_connect = false;
  };
  is_stale = false;
}

one_is_not_enough : (poll lagging (new_reporter hidden_item)).item.warning_background ≡ false
unfolding update update_warning_state
one_is_not_enough = refl
