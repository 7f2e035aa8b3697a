-- ===== src/Agent.antt =====
-- tumba_sdn/ml/dqn_agent.py: the reward, the routing that an action asks for, and the transitions that
-- the agent's loop puts into the replay buffer. The networks and their training are torch's.
pub mod Loop
pub mod Replay
pub mod Run
pub mod Reward
mod Tests
