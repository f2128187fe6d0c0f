-- ===== src/Actionset/Switch.antt =====
-- actionset/switch.py: the switch mode, fixed when the action set is established.
pub data SwitchMode : Type 0 where
  confirm_then_send auto_send_when_agent_unreachable : SwitchMode
